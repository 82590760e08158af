-- ===== src/Live/CurrentView/Shapes.antt =====
-- Deltas whose members are told apart.
use formula1_dashboard.Common.{ℕ, ◌≡◌, refl, Bool, false, Option, none, some, arith, ◌==◌, ◌||◌}
use formula1_dashboard.Live.CurrentView.{
  Value, null, scalar, string, array, mapping, Items, Entries, no_entries, entry, has_entry,
  item_at, put_item, array_index,
}
use formula1_dashboard.Live.CurrentView.Lookups.{item_at-put_item_other}

abbrev pub is_index : ℕ → Option ℕ → Bool
is_index i none = false
is_index i (some j) = i == j

-- Whether a member of a patch addresses an index of an array.
unfoldable pub has_index : (ℕ → Option ℕ) → ℕ → Entries → Bool
has_index digit i no_entries = false
has_index digit i (entry k v rest) =
    let later = has_index digit i rest in is_index i (array_index digit k) || later

abbrev pub FreshIndex : (ℕ → Option ℕ) → Option ℕ → Entries → Type 0
FreshIndex digit none rest = Unit
FreshIndex digit (some i) rest = has_index digit i rest ≡ false

-- At every depth of a patch no key occurs twice, and no two keys are the same array index.
abbrev mutual
  pub WellFormed : (ℕ → Option ℕ) → Value → Type 0
  WellFormed digit null = Unit
  WellFormed digit (scalar x) = Unit
  WellFormed digit (string t) = Unit
  WellFormed digit (array xs) = Unit
  WellFormed digit (mapping p) = WellFormedEntries digit p

  pub WellFormedEntries : (ℕ → Option ℕ) → Entries → Type 0
  WellFormedEntries digit no_entries = Unit
  WellFormedEntries digit (entry k v rest) =
      WellFormed digit v
      × (has_entry k rest ≡ false)
      × FreshIndex digit (array_index digit k) rest
      × WellFormedEntries digit rest

pub item_at-put_item_free :
    (i : ℕ) (o : Option ℕ) (v : Value) (xs : Items)
    → is_index i o ≡ false
    → item_at (some i) (put_item o v xs) ≡ item_at (some i) xs
unfolding put_item
item_at-put_item_free i none v xs h = refl
item_at-put_item_free i (some j) v xs h = item_at-put_item_other i j v xs (λ e. ground arith)
