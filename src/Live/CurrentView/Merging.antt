-- ===== src/Live/CurrentView/Merging.antt =====
-- Merging a delta a second time changes nothing.
use text.Mathlib.Text.{◌==◌ as str_eq}
use text.Mathlib.TextEquality.{eq_iff}
use text.Mathlib.TextPositions.{eq_refl}
use formula1_dashboard.Common.{
  ℕ, ◌≡◌, ◌∙◌, inl, inr, refl, ap, String, true, false, Option, none, some, arith, Bool-cases, ltb,
}
use formula1_dashboard.Live.CurrentView.{
  Value, null, scalar, string, array, mapping, Items, Entries, no_entries, entry, get, put,
  has_entry, item_at, put_item, item_count, array_index, merge_delta, merge_entries, merge_items,
  merge_fresh,
}
use formula1_dashboard.Live.CurrentView.Lookups.{
  get-put_same, get-put_other, has_entry-put, put-get, put_item-item_at, put_item-count,
  item_at-put_item, put_item-outside,
}
use formula1_dashboard.Live.CurrentView.Shapes.{
  has_index, FreshIndex, WellFormed, WellFormedEntries, item_at-put_item_free,
}

module _ (digit : ℕ → Option ℕ) where
  -- Every member of a patch is merged in the entries already.
  abbrev pub Settled : Entries → Entries → Type 0
  Settled m no_entries = Unit
  Settled m (entry k v patch) =
      (has_entry k m ≡ true) × (merge_delta digit (get k m) v ≡ get k m) × Settled m patch

  -- Every member of a patch is merged in the items already.
  abbrev pub SettledItems : Items → Entries → Type 0
  SettledItems xs no_entries = Unit
  SettledItems xs (entry k v patch) =
      (put_item (array_index digit k) (merge_delta digit (item_at (array_index digit k) xs) v) xs
        ≡ xs)
      × SettledItems xs patch

  pub merge_entries-Settled :
      (m patch : Entries) → Settled m patch → merge_entries digit m patch ≡ m
  unfolding merge_delta
  merge_entries-Settled m no_entries h = refl
  merge_entries-Settled m (entry k v patch) h =
      let here : put k (merge_delta digit (get k m) v) m ≡ m =
        ap (λ w. put k w m) h.1 ∙ put-get k m h.0 in
      ap (λ n. merge_entries digit n patch) here ∙ merge_entries-Settled m patch h.2

  pub merge_items-Settled :
      (xs : Items) (patch : Entries) → SettledItems xs patch → merge_items digit xs patch ≡ xs
  unfolding merge_delta
  merge_items-Settled xs no_entries h = refl
  merge_items-Settled xs (entry k v patch) h =
      ap (λ ys. merge_items digit ys patch) h.0 ∙ merge_items-Settled xs patch h.1

  get-merge_entries :
      (key : String) (m patch : Entries)
      → has_entry key patch ≡ false
      → get key (merge_entries digit m patch) ≡ get key m
  unfolding merge_delta has_entry
  get-merge_entries key m no_entries h = refl
  get-merge_entries key m (entry k v patch) h =
      let w = merge_delta digit (get k m) v in
      get-merge_entries key (put k w m) patch (ground arith)
      ∙ get-put_other key k w m (ground arith)

  has_entry-merge_entries :
      (key : String) (m patch : Entries)
      → has_entry key m ≡ true
      → has_entry key (merge_entries digit m patch) ≡ true
  unfolding merge_delta
  has_entry-merge_entries key m no_entries h = h
  has_entry-merge_entries key m (entry k v patch) h =
      let w = merge_delta digit (get k m) v in
      has_entry-merge_entries key (put k w m) patch (ground (arith, has_entry-put key k w m))

  pub item_at-merge_items :
      (i : ℕ) (xs : Items) (patch : Entries)
      → has_index digit i patch ≡ false
      → item_at (some i) (merge_items digit xs patch) ≡ item_at (some i) xs
  unfolding merge_delta has_index
  item_at-merge_items i xs no_entries h = refl
  item_at-merge_items i xs (entry k v patch) h =
      let w = merge_delta digit (item_at (array_index digit k) xs) v in
      item_at-merge_items i (put_item (array_index digit k) w xs) patch (ground arith)
      ∙ item_at-put_item_free i (array_index digit k) w xs (ground arith)

  pub item_count-merge_items :
      (xs : Items) (patch : Entries) → item_count (merge_items digit xs patch) ≡ item_count xs
  unfolding merge_delta
  item_count-merge_items xs no_entries = refl
  item_count-merge_items xs (entry k v patch) =
      let w = merge_delta digit (item_at (array_index digit k) xs) v in
      item_count-merge_items (put_item (array_index digit k) w xs) patch
      ∙ put_item-count (array_index digit k) w xs

  -- A second merge of the delta changes nothing, whatever the target.
  abbrev pub Idempotent : Value → Type 0
  Idempotent v =
      (target : Value)
      → merge_delta digit (merge_delta digit target v) v ≡ merge_delta digit target v

  abbrev pub AllIdempotent : Entries → Type 0
  AllIdempotent no_entries = Unit
  AllIdempotent (entry k v patch) = Idempotent v × AllIdempotent patch

  pub merge_entries-settles :
      (m patch : Entries)
      → WellFormedEntries digit patch
      → AllIdempotent patch
      → Settled (merge_entries digit m patch) patch
  unfolding merge_delta
  merge_entries-settles m no_entries w a = tt
  merge_entries-settles m (entry k v patch) w a =
      let x = merge_delta digit (get k m) v in
      let n = put k x m in
      let kept : get k (merge_entries digit n patch) ≡ x =
        get-merge_entries k n patch w.1 ∙ get-put_same k x m in
      (
        has_entry-merge_entries k n patch (ground (arith, has_entry-put k k x m, eq_refl k)),
        rw kept (a.0 (get k m)),
        merge_entries-settles n patch w.3 a.1,
      )

  pub Settled-entry :
      (k : String) (x : Value) (m patch : Entries)
      → has_entry k patch ≡ false
      → Settled m patch
      → Settled (entry k x m) patch
  unfolding has_entry get
  Settled-entry k x m no_entries h s = tt
  Settled-entry k x m (entry l v patch) h s =
      let apart : str_eq k l ≡ false = ground (arith, eq_iff k l, eq_iff l k) in
      (ground arith, rw apart s.1, Settled-entry k x m patch (ground arith) s.2)

  pub merge_fresh-settles :
      (patch : Entries)
      → WellFormedEntries digit patch
      → AllIdempotent patch
      → Settled (merge_fresh digit patch) patch
  unfolding merge_delta has_entry get
  merge_fresh-settles no_entries w a = tt
  merge_fresh-settles (entry k v patch) w a = (
    ground (arith, eq_refl k),
    rw (eq_refl k) (a.0 null),
    Settled-entry k (merge_delta digit null v) (merge_fresh digit patch) patch w.1
        (merge_fresh-settles patch w.3 a.1),
  )

  -- An item that was merged once stays, for an index that no later member addresses.
  item-settles :
      (o : Option ℕ) (v : Value) (xs : Items) (patch : Entries)
      → Idempotent v
      → FreshIndex digit o patch
      → (let ys = merge_items digit (put_item o (merge_delta digit (item_at o xs) v) xs) patch in
          put_item o (merge_delta digit (item_at o ys) v) ys ≡ ys)
  unfolding put_item
  item-settles none v xs patch a f = refl
  item-settles (some i) v xs patch a f =
      let x = merge_delta digit (item_at (some i) xs) v in
      let zs = put_item (some i) x xs in
      let ys = merge_items digit zs patch in
      elim (Bool-cases (ltb i (item_count xs))) [
        | inl inside ↦
            let kept : item_at (some i) ys ≡ x =
              item_at-merge_items i zs patch f ∙ item_at-put_item i x xs (ground arith) in
            let same : merge_delta digit (item_at (some i) ys) v ≡ item_at (some i) ys =
              rw kept (a (item_at (some i) xs)) in
            ap (λ u. put_item (some i) u ys) same ∙ put_item-item_at (some i) ys
        | inr outside ↦
            put_item-outside i (merge_delta digit (item_at (some i) ys) v) ys
              (ground (arith, item_count-merge_items zs patch, put_item-count (some i) x xs))
      ]

  merge_items-settles :
      (xs : Items) (patch : Entries)
      → WellFormedEntries digit patch
      → AllIdempotent patch
      → SettledItems (merge_items digit xs patch) patch
  unfolding merge_delta
  merge_items-settles xs no_entries w a = tt
  merge_items-settles xs (entry k v patch) w a =
      let o = array_index digit k in
      (
        item-settles o v xs patch a.0 w.2,
        merge_items-settles (put_item o (merge_delta digit (item_at o xs) v) xs) patch w.3 a.1,
      )

  mapping-Idempotent :
      (patch : Entries)
      → WellFormedEntries digit patch
      → AllIdempotent patch
      → Idempotent (mapping patch)
  unfolding merge_delta
  mapping-Idempotent patch w a null =
      ap mapping
        (merge_entries-Settled (merge_fresh digit patch) patch (merge_fresh-settles patch w a))
  mapping-Idempotent patch w a (scalar x) =
      ap mapping
        (merge_entries-Settled (merge_fresh digit patch) patch (merge_fresh-settles patch w a))
  mapping-Idempotent patch w a (string t) =
      ap mapping
        (merge_entries-Settled (merge_fresh digit patch) patch (merge_fresh-settles patch w a))
  mapping-Idempotent patch w a (array xs) =
      ap array
        (merge_items-Settled (merge_items digit xs patch) patch (merge_items-settles xs patch w a))
  mapping-Idempotent patch w a (mapping m) = ap mapping (
      merge_entries-Settled (merge_entries digit m patch) patch (merge_entries-settles m patch w a))

  mutual
    unfolding merge_delta

    pub WellFormed-Idempotent : (v : Value) → WellFormed digit v → Idempotent v
    WellFormed-Idempotent null w target = refl
    WellFormed-Idempotent (scalar x) w target = refl
    WellFormed-Idempotent (string t) w target = refl
    WellFormed-Idempotent (array xs) w target = refl
    WellFormed-Idempotent (mapping patch) w target =
        mapping-Idempotent patch w (WellFormed-AllIdempotent patch w) target

    WellFormed-AllIdempotent :
        (patch : Entries) → WellFormedEntries digit patch → AllIdempotent patch
    WellFormed-AllIdempotent no_entries w = tt
    WellFormed-AllIdempotent (entry k v patch) w =
        (WellFormed-Idempotent v w.0, WellFormed-AllIdempotent patch w.3)
