-- ===== src/Orchestration/Stale.antt =====
-- The rows that a recovery goes over.
use formula1_dashboard.Common.{
  ℕ, suc, zero, ◌≡◌, refl, ◌∙◌, Bool, true, false, not, some, List, [], ◌∷◌, arith, All, All-take,
  take, select, ◌&&◌, ◌==◌, is_none, Bool-cases, inl, inr,
}
use formula1_dashboard.Policy.Settings.{ValidSettings}
use formula1_dashboard.Store.{Store, JobSession, is_running, has_key, find_row, put_row, UniqueRows}
use formula1_dashboard.Store.Rows.{find_row-put_row}
use formula1_dashboard.Orchestration.Recovery.{
  Environment, is_stale, insert_row, sort_rows, stale_rows, beats_before,
}

-- A row that stands in a table under its key, and is running there.
pub record Stands (table : List JobSession) (row : JobSession) : Type 0 where
  pub found : find_row row.job_id row.session_id table ≡ some row
  pub live : is_running row.status ≡ true

pub All-map :
    (P Q : JobSession → Type 0) (rows : List JobSession)
    → ((r : JobSession) → P r → Q r)
    → All P rows
    → All Q rows
All-map P Q [] f a = tt
All-map P Q (x ∷ rows) f a = (f x a.0, All-map P Q rows f a.1)

Stands-cons :
    (x : JobSession) (rows : List JobSession) (r : JobSession)
    → is_none (find_row x.job_id x.session_id rows) ≡ true
    → Stands rows r
    → Stands (x ∷ rows) r
unfolding find_row
Stands-cons x rows r u st = record { found = ground (arith, st.found); live = st.live }

select-none :
    (test : JobSession → Bool) (j s : ℕ) (rows : List JobSession)
    → is_none (find_row j s rows) ≡ true
    → is_none (find_row j s (select test rows)) ≡ true
unfolding select find_row
select-none test j s [] h = refl
select-none test j s (x ∷ rows) h = ground (arith, select-none test j s rows)

select-UniqueRows :
    (test : JobSession → Bool) (rows : List JobSession)
    → UniqueRows rows
    → UniqueRows (select test rows)
unfolding select
select-UniqueRows test [] u = tt
select-UniqueRows test (x ∷ rows) u =
    ground (arith, select-UniqueRows test rows u.1, select-none test x.job_id x.session_id rows u.0)

select-Stands :
    (test : JobSession → Bool) (rows : List JobSession)
    → UniqueRows rows
    → ((r : JobSession) → test r ≡ true → is_running r.status ≡ true)
    → All (Stands rows) (select test rows)
unfolding select find_row
select-Stands test [] u f = tt
select-Stands test (x ∷ rows) u f =
    let rest =
      All-map (Stands rows) (Stands (x ∷ rows)) (select test rows) (λ r. Stands-cons x rows r u.0)
        (select-Stands test rows u.1 f) in
    elim (Bool-cases (test x)) [
      | inl e ↦ rw e (record { found = ground arith; live = f x e }, rest)
      | inr e ↦ rw e rest
    ]

insert_row-none :
    (j s : ℕ) (x : JobSession) (rows : List JobSession)
    → is_none (find_row j s (insert_row x rows))
      ≡ (not (has_key j s x) && is_none (find_row j s rows))
unfolding insert_row find_row
insert_row-none j s x [] = ground arith
insert_row-none j s x (y ∷ rows) = ground (arith, insert_row-none j s x rows)

insert_row-UniqueRows :
    (x : JobSession) (rows : List JobSession)
    → is_none (find_row x.job_id x.session_id rows) ≡ true
    → UniqueRows rows
    → UniqueRows (insert_row x rows)
unfolding insert_row find_row
insert_row-UniqueRows x [] h u = (refl, tt)
insert_row-UniqueRows x (y ∷ rows) h u =
    ground (arith, insert_row-UniqueRows x rows, insert_row-none y.job_id y.session_id x rows)

insert_row-All :
    (P : JobSession → Type 0) (x : JobSession) (rows : List JobSession)
    → P x
    → All P rows
    → All P (insert_row x rows)
unfolding insert_row
insert_row-All P x [] p a = (p, tt)
insert_row-All P x (y ∷ rows) p a = elim (Bool-cases (beats_before x y)) [
  | inl first ↦ rw first (p, a)
  | inr later ↦ rw later (a.0, insert_row-All P x rows p a.1)
]

sort_rows-none :
    (j s : ℕ) (rows : List JobSession)
    → is_none (find_row j s (sort_rows rows)) ≡ is_none (find_row j s rows)
unfolding sort_rows find_row
sort_rows-none j s [] = refl
sort_rows-none j s (x ∷ rows) =
    ground (arith, sort_rows-none j s rows, insert_row-none j s x (sort_rows rows))

sort_rows-UniqueRows : (rows : List JobSession) → UniqueRows rows → UniqueRows (sort_rows rows)
unfolding sort_rows
sort_rows-UniqueRows [] u = tt
sort_rows-UniqueRows (x ∷ rows) u =
    insert_row-UniqueRows x (sort_rows rows) (sort_rows-none x.job_id x.session_id rows ∙ u.0)
      (sort_rows-UniqueRows rows u.1)

pub sort_rows-All :
    (P : JobSession → Type 0) (rows : List JobSession) → All P rows → All P (sort_rows rows)
unfolding sort_rows
sort_rows-All P [] a = tt
sort_rows-All P (x ∷ rows) a = insert_row-All P x (sort_rows rows) a.0 (sort_rows-All P rows a.1)

take-none :
    (n j s : ℕ) (rows : List JobSession)
    → is_none (find_row j s rows) ≡ true
    → is_none (find_row j s (take n rows)) ≡ true
unfolding find_row
take-none zero j s rows h = refl
take-none (suc n) j s [] h = refl
take-none (suc n) j s (x ∷ rows) h = ground (arith, take-none n j s rows)

take-UniqueRows : (n : ℕ) (rows : List JobSession) → UniqueRows rows → UniqueRows (take n rows)
take-UniqueRows zero rows u = tt
take-UniqueRows (suc n) [] u = tt
take-UniqueRows (suc n) (x ∷ rows) u =
    (take-none n x.job_id x.session_id rows u.0, take-UniqueRows n rows u.1)

-- The loop goes over rows of the table, each once, all of them running.
pub stale_rows-Stands :
    (s : ValidSettings) (env : Environment) (batch_size : ℕ) (db : Store)
    → UniqueRows db.job_sessions
    → UniqueRows (stale_rows s env batch_size db)
      × All (Stands db.job_sessions) (stale_rows s env batch_size db)
unfolding stale_rows is_stale
stale_rows-Stands s env batch_size db u =
    let chosen = select (is_stale s env db) db.job_sessions in
    (
      take-UniqueRows batch_size (sort_rows chosen)
          (sort_rows-UniqueRows chosen (select-UniqueRows (is_stale s env db) db.job_sessions u)),
      All-take (Stands db.job_sessions) batch_size (sort_rows chosen) (
          sort_rows-All (Stands db.job_sessions) chosen
            (select-Stands (is_stale s env db) db.job_sessions u (λ r h. ground arith))),
    )

-- Writing another row leaves a row standing.
pub Stands-put_row :
    (new row : JobSession) (table : List JobSession)
    → (new.job_id == row.job_id && new.session_id == row.session_id) ≡ false
    → Stands table row
    → Stands (put_row new table) row
Stands-put_row new row table other st = record {
  found = rw (find_row-put_row new row.job_id row.session_id table, other) st.found;
  live = st.live;
}
