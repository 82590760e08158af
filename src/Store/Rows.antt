-- ===== src/Store/Rows.antt =====
-- Finding a row and writing it back.
use formula1_dashboard.Common.{
  ℕ, ◌≡◌, none, some, List, [], ◌∷◌, arith, ◌==◌, ◌&&◌, if◌then◌else◌, All, is_none, Bool-cases,
  ◌++◌, true, not, inl, inr, subst,
}
use formula1_dashboard.Store.{JobSession, has_key, find_row, put_row, UniqueRows}

pub find_row-key :
    (j s : ℕ) (rows : List JobSession) (row : JobSession)
    → find_row j s rows ≡ some row
    → (row.job_id ≡ j) × (row.session_id ≡ s)
unfolding find_row
find_row-key j s [] row h = absurd (cc)
find_row-key j s (x ∷ rows) row h = ground (arith, find_row-key j s rows row)

-- What holds of every row holds of the row that is found.
pub find_row-All {ℓ} :
    (P : JobSession → Type ℓ) (j s : ℕ) (rows : List JobSession) (row : JobSession)
    → All P rows
    → find_row j s rows ≡ some row
    → P row
unfolding find_row
find_row-All P j s [] row a h = absurd (cc)
find_row-All P j s (x ∷ rows) row a h = elim (Bool-cases (has_key j s x)) [
  | inl here ↦ let e : x ≡ row = ground arith in subst P e a.0
  | inr there ↦ find_row-All P j s rows row a.1 (ground arith)
]

pub All-put_row {ℓ} :
    (P : JobSession → Type ℓ) (new : JobSession) (rows : List JobSession)
    → P new
    → All P rows
    → All P (put_row new rows)
unfolding put_row
All-put_row P new [] p a = tt
All-put_row P new (x ∷ rows) p a = elim (Bool-cases (has_key new.job_id new.session_id x)) [
  | inl here ↦ rw here (p, a.1)
  | inr there ↦ rw there (a.0, All-put_row P new rows p a.1)
]

pub find_row-put_row :
    (new : JobSession) (j s : ℕ) (rows : List JobSession)
    → find_row j s (put_row new rows) ≡ (
        if new.job_id == j && new.session_id == s
        then elim (find_row j s rows) [ none ↦ none | some _ ↦ some new ]
        else find_row j s rows)
unfolding find_row put_row
find_row-put_row new j s [] = ground arith
find_row-put_row new j s (x ∷ rows) = ground (arith, find_row-put_row new j s rows)

UniqueRows-put_row_none :
    (new : JobSession) (j s : ℕ) (rows : List JobSession)
    → is_none (find_row j s (put_row new rows)) ≡ is_none (find_row j s rows)
UniqueRows-put_row_none new j s rows = ground (arith, find_row-put_row new j s rows)

pub UniqueRows-put_row :
    (new : JobSession) (rows : List JobSession) → UniqueRows rows → UniqueRows (put_row new rows)
unfolding put_row
UniqueRows-put_row new [] u = tt
UniqueRows-put_row new (x ∷ rows) u =
    ground (
      arith,
      UniqueRows-put_row new rows u.1,
      UniqueRows-put_row_none new x.job_id x.session_id rows,
    )

find_row-append :
    (j s : ℕ) (new : JobSession) (rows : List JobSession)
    → is_none (find_row j s (rows ++ (new ∷ [])))
      ≡ (is_none (find_row j s rows) && not (has_key j s new))
unfolding find_row
find_row-append j s new [] = ground arith
find_row-append j s new (x ∷ rows) = ground (arith, find_row-append j s new rows)

-- A row with a new key can be appended.
pub UniqueRows-append :
    (new : JobSession) (rows : List JobSession)
    → is_none (find_row new.job_id new.session_id rows) ≡ true
    → UniqueRows rows
    → UniqueRows (rows ++ (new ∷ []))
unfolding find_row
UniqueRows-append new [] h u = ground arith
UniqueRows-append new (x ∷ rows) h u =
    ground (arith, UniqueRows-append new rows, find_row-append x.job_id x.session_id new rows)
