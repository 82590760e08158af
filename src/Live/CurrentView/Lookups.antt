-- ===== src/Live/CurrentView/Lookups.antt =====
-- Reading and writing the members of a payload.
use text.Mathlib.Text.{◌==◌ as str_eq}
use text.Mathlib.TextEquality.{eq_iff}
use text.Mathlib.TextPositions.{eq_refl}
use formula1_dashboard.Common.{
  ℕ, suc, zero, ◌≡◌, ◌≢◌, ◌<◌, ◌≤◌, refl, ap, String, true, false, Option, none, some, arith, ◌||◌,
}
use formula1_dashboard.Live.CurrentView.{
  Value, Items, no_items, item, Entries, no_entries, entry, get, put, has_entry, item_at, put_item,
  item_count,
}

pub get-put_same : (k : String) (v : Value) (m : Entries) → get k (put k v m) ≡ v
unfolding get put
get-put_same k v no_entries = ground (arith, eq_refl k)
get-put_same k v (entry l w m) = ground (arith, eq_refl k, get-put_same k v m)

pub get-put_other :
    (key k : String) (v : Value) (m : Entries)
    → str_eq k key ≡ false
    → get key (put k v m) ≡ get key m
unfolding get put
get-put_other key k v no_entries h = ground arith
get-put_other key k v (entry l w m) h =
    ground (arith, eq_iff l k, eq_iff l key, eq_iff k key, get-put_other key k v m)

pub has_entry-put :
    (key k : String) (v : Value) (m : Entries)
    → has_entry key (put k v m) ≡ (str_eq k key || has_entry key m)
unfolding has_entry put
has_entry-put key k v no_entries = ground arith
has_entry-put key k v (entry l w m) =
    ground (arith, eq_iff l k, eq_iff l key, eq_iff k key, has_entry-put key k v m)

-- Writing a member that is there with its own value changes nothing.
pub put-get : (k : String) (m : Entries) → has_entry k m ≡ true → put k (get k m) m ≡ m
unfolding has_entry put get
put-get k no_entries h = absurd (cc)
put-get k (entry l w m) h = ground (arith, put-get k m)

pub put_item-item_at : (o : Option ℕ) (xs : Items) → put_item o (item_at o xs) xs ≡ xs
unfolding put_item item_at
put_item-item_at none xs = refl
put_item-item_at (some i) no_items = refl
put_item-item_at (some zero) (item v xs) = refl
put_item-item_at (some (suc i)) (item v xs) = ap (item v) (put_item-item_at (some i) xs)

pub put_item-count :
    (o : Option ℕ) (v : Value) (xs : Items) → item_count (put_item o v xs) ≡ item_count xs
unfolding put_item item_count
put_item-count none v xs = refl
put_item-count (some i) v no_items = refl
put_item-count (some zero) v (item w xs) = refl
put_item-count (some (suc i)) v (item w xs) = ap suc (put_item-count (some i) v xs)

pub item_at-put_item :
    (i : ℕ) (v : Value) (xs : Items)
    → i < item_count xs
    → item_at (some i) (put_item (some i) v xs) ≡ v
unfolding put_item item_at item_count
item_at-put_item i v no_items h = absurd (omega (arith, h))
item_at-put_item zero v (item w xs) h = refl
item_at-put_item (suc i) v (item w xs) h = item_at-put_item i v xs (omega arith)

pub item_at-put_item_other :
    (i j : ℕ) (v : Value) (xs : Items)
    → i ≢ j
    → item_at (some i) (put_item (some j) v xs) ≡ item_at (some i) xs
unfolding put_item item_at
item_at-put_item_other i j v no_items h = refl
item_at-put_item_other zero zero v (item w xs) h = absurd (h refl)
item_at-put_item_other zero (suc j) v (item w xs) h = refl
item_at-put_item_other (suc i) zero v (item w xs) h = refl
item_at-put_item_other (suc i) (suc j) v (item w xs) h =
    item_at-put_item_other i j v xs (λ e. h (ap suc e))

pub put_item-outside :
    (i : ℕ) (v : Value) (xs : Items) → item_count xs ≤ i → put_item (some i) v xs ≡ xs
unfolding put_item item_count
put_item-outside i v no_items h = refl
put_item-outside zero v (item w xs) h = absurd (omega arith)
put_item-outside (suc i) v (item w xs) h = ap (item w) (put_item-outside i v xs (omega arith))
