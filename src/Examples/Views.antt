-- ===== src/Examples/Views.antt =====
-- The theorems on the live view.
use text.Mathlib.Text.{◌==◌ as str_eq}
use text.Mathlib.TextPositions.{eq_refl}
use formula1_dashboard.Common.{
  ℕ, ◌-◌, ◌≡◌, refl, Bool, true, false, Option, none, some, arith, ◌==◌, ◌&&◌, leb, if◌then◌else◌,
}
use formula1_dashboard.Live.CurrentView.{
  Value, null, scalar, string, array, mapping, Items, no_items, item, Entries, no_entries, entry,
  has_entry, merge_delta, array_index, LiveFrame, CurrentView, apply,
}
use formula1_dashboard.Live.CurrentView.Shapes.{WellFormedEntries, has_index}
use formula1_dashboard.Live.CurrentView.Replays.{merge_again, Replayed, apply-Replayed}

-- The decimal digits of ASCII.
abbrev digit : ℕ → Option ℕ
digit c = if leb b'0' c && leb c b'9' then some (c - b'0') else none

-- Three sectors of a driver, and a delta for the second one.
abbrev driver : Entries
driver =
    entry "Sectors" (array (item null (item (mapping no_entries) (item null no_items))))
      (entry "Position" (scalar 3) no_entries)

abbrev delta : Entries
delta =
    entry "Sectors"
      (mapping (entry "1" (mapping (entry "Status" (scalar 5) no_entries)) no_entries))
      (entry "Stopped" (scalar 1) no_entries)

delta-WellFormed : WellFormedEntries digit delta
unfolding has_entry has_index array_index
delta-WellFormed = (((tt, refl, tt, tt), refl, refl, tt), refl, tt, (tt, refl, tt, tt))

merge_again_example :
    merge_delta digit (merge_delta digit (mapping driver) (mapping delta)) (mapping delta)
    ≡ merge_delta digit (mapping driver) (mapping delta)
merge_again_example = merge_again digit (mapping driver) (mapping delta) delta-WellFormed

-- A comparison of payloads, member by member.
unfoldable mutual
  same_value : Value → Value → Bool
  same_value null null = true
  same_value (scalar x) (scalar y) = x == y
  same_value (string s) (string t) = str_eq s t
  same_value (array xs) (array ys) = same_items xs ys
  same_value (mapping xs) (mapping ys) = same xs ys
  same_value _ _ = false

  same_items : Items → Items → Bool
  same_items no_items no_items = true
  same_items (item x xs) (item y ys) = same_value x y && same_items xs ys
  same_items _ _ = false

  same : Entries → Entries → Bool
  same no_entries no_entries = true
  same (entry k x xs) (entry l y ys) = str_eq k l && (same_value x y && same xs ys)
  same _ _ = false

mutual
  unfolding same_value

  same_value_refl : (x : Value) → same_value x x ≡ true
  same_value_refl null = refl
  same_value_refl (scalar x) = ground arith
  same_value_refl (string t) = eq_refl t
  same_value_refl (array xs) = same_items_refl xs
  same_value_refl (mapping xs) = same_refl xs

  same_items_refl : (xs : Items) → same_items xs xs ≡ true
  same_items_refl no_items = refl
  same_items_refl (item x xs) = ground (arith, same_value_refl x, same_items_refl xs)

  same_refl : (xs : Entries) → same xs xs ≡ true
  same_refl no_entries = refl
  same_refl (entry k x xs) = ground (arith, eq_refl k, same_value_refl x, same_refl xs)

abbrev frame : LiveFrame
frame = record {
  received_at = 20;
  topic = 1;
  initial = false;
  feed_timestamp = some 19;
  payload = delta;
}

-- A view that has seen a snapshot of the topic.
abbrev view : CurrentView
view = record {
  topics = λ topic.
      if topic == 1
      then some (record {
        received_at = 10;
        feed_timestamp = none;
        payload = driver;
        snapshots = 1;
        updates = 0;
      })
      else none;
  applied = 1;
  unchanged = 0;
}

apply-Replayed_example :
    Replayed frame
      (apply digit same frame view)
      (apply digit same frame (apply digit same frame view).1)
apply-Replayed_example = apply-Replayed digit same frame view same_refl delta-WellFormed
