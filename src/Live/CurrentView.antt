-- ===== src/Live/CurrentView.antt =====
-- backend/app/live/current_view.py. A payload is a JSON value; the members of an object are a list in
-- the order of the dictionary. `digit` gives the value of a decimal digit of Unicode, by its code point,
-- and `same` is Python's equality of two payloads.
pub mod Lookups
pub mod Shapes
pub mod Merging
pub mod Replays
use text.Mathlib.Text.{◌==◌ as str_eq}
use formula1_dashboard.Common.{
  ℕ, suc, zero, ◌+◌, ◌*◌, String, Bool, true, false, not, Option, none, some, List, [], ◌∷◌, ltb,
  leb, ◌==◌, ◌&&◌, ◌||◌, if◌then◌else◌, length,
}
use formula1_dashboard.Failures.{codes}

mutual
  -- A JSON value. `scalar` is a truth value or a number, under a number of its own.
  pub data Value : Type 0 where
    null : Value
    scalar : ℕ → Value
    string : String → Value
    array : Items → Value
    mapping : Entries → Value

  pub data Items : Type 0 where
    no_items : Items
    item : Value → Items → Items

  pub data Entries : Type 0 where
    no_entries : Entries
    entry : String → Value → Entries → Entries

-- `merged.get(key)`, which is None for a key that is not there.
unfoldable pub get : String → Entries → Value
get key no_entries = null
get key (entry k v rest) = let later = get key rest in if str_eq k key then v else later

-- `merged[key] = value`.
unfoldable pub put : String → Value → Entries → Entries
put key value no_entries = entry key value no_entries
put key value (entry k v rest) =
    let later = put key value rest in if str_eq k key then entry k value rest else entry k v later

unfoldable pub has_entry : String → Entries → Bool
has_entry key no_entries = false
has_entry key (entry k v rest) = let later = has_entry key rest in str_eq k key || later

-- `patched[index]`, None out of range or without an index.
unfoldable pub item_at : Option ℕ → Items → Value
item_at none xs = null
item_at (some i) no_items = null
item_at (some zero) (item v rest) = v
item_at (some (suc i)) (item v rest) = item_at (some i) rest

-- `patched[index] = value`, skipped out of range or without an index.
unfoldable pub put_item : Option ℕ → Value → Items → Items
put_item none value xs = xs
put_item (some i) value no_items = no_items
put_item (some zero) value (item v rest) = item value rest
put_item (some (suc i)) value (item v rest) = item v (put_item (some i) value rest)

unfoldable pub item_count : Items → ℕ
item_count no_items = 0
item_count (item v rest) = suc (item_count rest)

-- The number of digits that Python's `int` accepts in a text.
abbrev pub max_digits : ℕ
max_digits = 4300

-- `int(key)` of a text of decimal digits, from the value of the digits before; none where a character
-- is no decimal digit.
unfoldable pub decimal : (ℕ → Option ℕ) → ℕ → List ℕ → Option ℕ
decimal digit value [] = some value
decimal digit value (c ∷ cs) = elim (digit c) [
  | none ↦ none
  | some d ↦ decimal digit (10 * value + d) cs
]

-- `_array_index`.
unfoldable pub array_index : (ℕ → Option ℕ) → String → Option ℕ
unfolding decimal
array_index digit key = elim (codes key) [
  | [] ↦ none
  | c ∷ cs ↦ if leb (length (c ∷ cs)) max_digits then decimal digit 0 (c ∷ cs) else none
]

-- `merge_delta`, its loops over the members of the patch for a mapping, a list and any other target.
unfoldable mutual
  pub merge_delta : (ℕ → Option ℕ) → Value → Value → Value
  merge_delta digit target null = null
  merge_delta digit target (scalar x) = scalar x
  merge_delta digit target (string t) = string t
  merge_delta digit target (array xs) = array xs
  merge_delta digit null (mapping patch) = mapping (merge_fresh digit patch)
  merge_delta digit (scalar x) (mapping patch) = mapping (merge_fresh digit patch)
  merge_delta digit (string t) (mapping patch) = mapping (merge_fresh digit patch)
  merge_delta digit (array xs) (mapping patch) = array (merge_items digit xs patch)
  merge_delta digit (mapping m) (mapping patch) = mapping (merge_entries digit m patch)

  pub merge_entries : (ℕ → Option ℕ) → Entries → Entries → Entries
  merge_entries digit m no_entries = m
  merge_entries digit m (entry k v patch) =
      merge_entries digit (put k (merge_delta digit (get k m) v) m) patch

  pub merge_items : (ℕ → Option ℕ) → Items → Entries → Items
  merge_items digit xs no_entries = xs
  merge_items digit xs (entry k v patch) =
      merge_items digit
        (put_item (array_index digit k) (merge_delta digit (item_at (array_index digit k) xs) v) xs)
        patch

  pub merge_fresh : (ℕ → Option ℕ) → Entries → Entries
  merge_fresh digit no_entries = no_entries
  merge_fresh digit (entry k v patch) = entry k (merge_delta digit null v) (merge_fresh digit patch)

-- `LiveFrame`, of a topic by its number.
pub record LiveFrame : Type 0 where
  pub received_at : ℕ
  pub topic : ℕ
  pub initial : Bool
  pub feed_timestamp : Option ℕ
  pub payload : Entries

-- `TopicState`.
pub record TopicState : Type 0 where
  pub received_at : ℕ
  pub feed_timestamp : Option ℕ
  pub payload : Entries
  pub snapshots : ℕ
  pub updates : ℕ

-- `LiveCurrentView`.
pub record CurrentView : Type 0 where
  pub topics : ℕ → Option TopicState
  pub applied : ℕ
  pub unchanged : ℕ

abbrev pub set_topic : ℕ → TopicState → (ℕ → Option TopicState) → ℕ → Option TopicState
set_topic topic state topics k = if topic == k then some state else topics k

abbrev previous_snapshots : Option TopicState → ℕ
previous_snapshots none = 0
previous_snapshots (some state) = state.snapshots

-- The state after a frame that replaces or seeds it.
abbrev pub replaced : LiveFrame → Option TopicState → TopicState
replaced frame existing = record {
  received_at = frame.received_at;
  feed_timestamp = frame.feed_timestamp;
  payload = frame.payload;
  snapshots = previous_snapshots existing + (if frame.initial then 1 else 0);
  updates = 0;
}

-- The state after a delta that changed it.
abbrev pub updated : LiveFrame → Entries → TopicState → TopicState
updated frame merged existing = record {
  received_at = frame.received_at;
  feed_timestamp = frame.feed_timestamp;
  payload = merged;
  snapshots = existing.snapshots;
  updates = existing.updates + 1;
}

abbrev count_changed : Bool → CurrentView → CurrentView
count_changed true view = record view { applied = view.applied + 1 }
count_changed false view = record view { unchanged = view.unchanged + 1 }

module _ (digit : ℕ → Option ℕ) (same : Entries → Entries → Bool) where
  -- Whether a frame that replaces or seeds the state changes it.
  abbrev replaces : LiveFrame → Option TopicState → Bool
  replaces frame none = true
  replaces frame (some state) = not (same state.payload frame.payload)

  unfoldable pub replace_topic : LiveFrame → CurrentView → Bool × CurrentView
  replace_topic frame view =
      let existing = view.topics frame.topic in
      let changed = replaces frame existing in
      (
        changed,
        count_changed changed
            (record view { topics = set_topic frame.topic (replaced frame existing) view.topics }),
      )

  unfoldable pub merge_topic : LiveFrame → TopicState → CurrentView → Bool × CurrentView
  unfolding merge_delta
  merge_topic frame existing view =
      let merged = merge_entries digit existing.payload frame.payload in
      if same merged existing.payload then (false, count_changed false view) else (
        true,
        count_changed true (record view {
          topics = set_topic frame.topic (updated frame merged existing) view.topics;
        }),
      )

  -- `LiveCurrentView.apply`; the answer is whether the frame changed anything. The merge of two
  -- dictionaries is a dictionary, so the test `isinstance(merged, dict)` holds.
  unfoldable pub apply : LiveFrame → CurrentView → Bool × CurrentView
  unfolding replace_topic merge_topic
  apply frame view = elim (view.topics frame.topic) [
    | none ↦ replace_topic frame view
    | some existing ↦
        if frame.initial then replace_topic frame view else merge_topic frame existing view
  ]

  -- `apply_all`; the answer is the number of frames that changed something.
  unfoldable pub apply_all : List LiveFrame → CurrentView → ℕ × CurrentView
  unfolding apply
  apply_all [] view = (0, view)
  apply_all (frame ∷ frames) view =
      let (changed, next) = apply frame view in
      let (n, end) = apply_all frames next in ((if changed then suc n else n), end)
