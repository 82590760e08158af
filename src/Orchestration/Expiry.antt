-- ===== src/Orchestration/Expiry.antt =====
-- Which leases a recovery takes, and how many.
use formula1_dashboard.Common.{
  ℕ, ◌+◌, ◌≤◌, ◌≡◌, ◌∙◌, Bool, true, false, Option, some, List, [], ◌∷◌, ok, arith, All, All-take,
  take, select, ◌&&◌, ◌==◌, length, length-take-le, Outcome-cases, Option-cases, Bool-cases, inl,
  inr,
}
use formula1_dashboard.Policy.Number.{Number}
use formula1_dashboard.Policy.Settings.{ValidSettings}
use formula1_dashboard.Store.{Store, JobSession, find_row, UniqueRows}
use formula1_dashboard.Store.Rows.{find_row-key, find_row-put_row}
use formula1_dashboard.Orchestration.Recovery.{
  RecoveredLease, Environment, is_stale, stale_rows, sort_rows, recovered_outcome, recovered_row,
  recover_job, recover_ingestion, expire_lease, recover_row, recover_rows, recover_stale,
}
use formula1_dashboard.Orchestration.Stale.{Stands, stale_rows-Stands, sort_rows-All, All-map}

module _ (s : ValidSettings) where
  recover_rows-length :
      (env : Environment) (round : ℕ) (rows : List JobSession) (db db' : Store)
      (leases : List RecoveredLease)
      → recover_rows s env round rows db ≡ ok (leases, db')
      → length leases ≤ length rows
  unfolding recover_rows
  recover_rows-length env round [] db db' leases h = ground arith
  recover_rows-length env round (row ∷ rows) db db' leases h =
      elim (Outcome-cases
        (recover_row s (env.recovered_at round) (env.jitter round) row.job_id row.session_id db)) [
          | inr bad ↦ absurd (ground arith)
          | inl ((r, mid), first) ↦ elim (Outcome-cases (recover_rows s env (round + 1) rows mid)) [
            | inr bad ↦ absurd (ground arith)
            | inl ((more, last), rest) ↦
                ground (arith, recover_rows-length env (round + 1) rows mid last more rest)
          ]
        ]

  -- A round that names another key leaves a row as it was.
  recover_row-other :
      (now : ℕ) (jitter : Number) (j k a b : ℕ) (db db' : Store) (r : Option RecoveredLease)
      → (j == a && k == b) ≡ false
      → recover_row s now jitter j k db ≡ ok (r, db')
      → find_row a b db'.job_sessions ≡ find_row a b db.job_sessions
  unfolding recover_row recover_job recover_ingestion expire_lease
  recover_row-other now jitter j k a b db db' r other h =
      elim (Option-cases (find_row j k db.job_sessions)) [
        | inl e ↦ ground arith
        | inr (row, e) ↦ elim (Option-cases (db.jobs row.job_id)) [
          | inl e' ↦ ground arith
          | inr (job, e') ↦ elim (Option-cases (db.ingestions row.session_id)) [
            | inl e'' ↦ ground arith
            | inr (i, e'') ↦ elim (Outcome-cases (recovered_outcome s now jitter row)) [
              | inr bad ↦ ground arith
              | inl (o, e''') ↦ ground (
                arith,
                find_row-key j k db.job_sessions row e,
                find_row-put_row (recovered_row o.0 o.1 row) a b db.job_sessions,
              )
            ]
          ]
        ]
      ]

  recover_rows-other :
      (env : Environment) (round a b : ℕ) (rows : List JobSession) (db db' : Store)
      (leases : List RecoveredLease)
      → All (λ row. (row.job_id == a && row.session_id == b) ≡ false) rows
      → recover_rows s env round rows db ≡ ok (leases, db')
      → find_row a b db'.job_sessions ≡ find_row a b db.job_sessions
  unfolding recover_rows
  recover_rows-other env round a b [] db db' leases others h = ground arith
  recover_rows-other env round a b (row ∷ rows) db db' leases others h =
      elim (Outcome-cases
        (recover_row s (env.recovered_at round) (env.jitter round) row.job_id row.session_id db)) [
          | inr bad ↦ absurd (ground arith)
          | inl ((r, mid), first) ↦ elim (Outcome-cases (recover_rows s env (round + 1) rows mid)) [
            | inr bad ↦ absurd (ground arith)
            | inl ((more, last), rest) ↦ ground (
              arith,
              recover_row-other (env.recovered_at round) (env.jitter round) row.job_id
                  row.session_id a b db mid r others.0 first,
              recover_rows-other env (round + 1) a b rows mid last more others.1 rest,
            )
          ]
        ]

-- A recovery reports at most `batch_size` leases.
pub recover_stale-length :
    (s : ValidSettings) (env : Environment) (batch_size : ℕ) (db db' : Store)
    (leases : List RecoveredLease)
    → recover_stale s env batch_size db ≡ ok (leases, db')
    → length leases ≤ batch_size
unfolding recover_stale stale_rows
recover_stale-length s env batch_size db db' leases h = ground (
  arith,
  recover_rows-length s env 0 (stale_rows s env batch_size db) db db' leases,
  length-take-le batch_size (sort_rows (select (is_stale s env db) db.job_sessions)),
)

select-All :
    (test : JobSession → Bool) (rows : List JobSession)
    → All (λ row. test row ≡ true) (select test rows)
unfolding select
select-All test [] = tt
select-All test (x ∷ rows) = elim (Bool-cases (test x)) [
  | inl e ↦ rw e (e, select-All test rows)
  | inr e ↦ rw e (select-All test rows)
]

All-both :
    (P Q : JobSession → Type 0) (rows : List JobSession)
    → All P rows
    → All Q rows
    → All (λ r. P r × Q r) rows
All-both P Q [] p q = tt
All-both P Q (x ∷ rows) p q = ((p.0, q.0), All-both P Q rows p.1 q.1)

not_same :
    (s : ValidSettings) (env : Environment) (db : Store) (row r : JobSession)
    → find_row row.job_id row.session_id db.job_sessions ≡ some row
    → is_stale s env db row ≡ false
    → Stands db.job_sessions r
    → is_stale s env db r ≡ true
    → (r.job_id == row.job_id && r.session_id == row.session_id) ≡ false
not_same s env db row r found fresh st stale = ground (arith, st.found)

-- In a table with unique keys, a recovery that succeeds leaves every job-session as it was that the
-- scan does not find stale: one whose job or which itself is not running, whose heartbeat is missing
-- or recent enough, or which is locked.
pub fresh_untouched :
    (s : ValidSettings) (env : Environment) (batch_size : ℕ) (db db' : Store)
    (leases : List RecoveredLease) (row : JobSession)
    → UniqueRows db.job_sessions
    → find_row row.job_id row.session_id db.job_sessions ≡ some row
    → is_stale s env db row ≡ false
    → recover_stale s env batch_size db ≡ ok (leases, db')
    → find_row row.job_id row.session_id db'.job_sessions ≡ some row
unfolding recover_stale stale_rows
fresh_untouched s env batch_size db db' leases row unique found fresh h =
    let chosen = select (is_stale s env db) db.job_sessions in
    let rows = take batch_size (sort_rows chosen) in
    let (u, stands) = stale_rows-Stands s env batch_size db unique in
    let stale =
      All-take (λ r. is_stale s env db r ≡ true) batch_size (sort_rows chosen)
        (sort_rows-All (λ r. is_stale s env db r ≡ true) chosen
          (select-All (is_stale s env db) db.job_sessions)) in
    let others =
      All-map (λ r. Stands db.job_sessions r × (is_stale s env db r ≡ true))
        (λ r. (r.job_id == row.job_id && r.session_id == row.session_id) ≡ false) rows
        (λ r p. not_same s env db row r found fresh p.0 p.1)
        (All-both (Stands db.job_sessions) (λ r. is_stale s env db r ≡ true) rows stands stale) in
    recover_rows-other s env 0 row.job_id row.session_id rows db db' leases others ground arith
    ∙ found
