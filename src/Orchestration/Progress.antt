-- ===== src/Orchestration/Progress.antt =====
-- What the aggregation of a job says of its job-sessions.
use formula1_dashboard.Common.{
  ℕ, ◌+◌, ◌<◌, ◌≡◌, ◌↔◌, refl, true, some, List, [], ◌∷◌, ok, arith, count, length, ◌⊎◌, Bool, not,
  sym, select, count-le-length,
}
use formula1_dashboard.Store.{
  Store, Job, JobSession, Status, completed, failed, is_active, is_completed, is_failed,
}
use formula1_dashboard.Orchestration.Aggregation.{
  Counts, Aggregation, rows_of, counts_of, derive_status, start_of, timed_job, error_job,
  aggregated_job, aggregate,
}

-- Every row has one status.
counts_of-length :
    (rows : List JobSession)
    → (counts_of rows).pending_sessions
        + (counts_of rows).running_sessions
        + (counts_of rows).completed_sessions
        + (counts_of rows).failed_sessions
      ≡ length rows
unfolding counts_of count
counts_of-length [] = refl
counts_of-length (x ∷ rows) = ground (arith, counts_of-length rows)

-- The four counts of an aggregation add up to its total.
aggregate-total :
    (now id : ℕ) (db db' : Store) (a : Aggregation)
    → aggregate now id db ≡ ok (a, db')
    → a.counts.pending_sessions + a.counts.running_sessions + a.counts.completed_sessions
        + a.counts.failed_sessions
      ≡ a.total_sessions
unfolding aggregate
aggregate-total now id db db' a h = ground (arith, counts_of-length (rows_of id db.job_sessions))

error_job-status : (c : Counts) (job : Job) → (error_job c job).status ≡ job.status
unfolding error_job
error_job-status c job = ground arith

aggregated_job-status :
    (rows : List JobSession) (now : ℕ) (job : Job)
    → is_active job.status ≡ true
    → (aggregated_job rows now job).status ≡ derive_status job rows (counts_of rows)
unfolding aggregated_job timed_job
aggregated_job-status rows now job active = ground (
  arith,
  error_job-status (counts_of rows)
      (timed_job job rows (derive_status job rows (counts_of rows)) now),
)

derive_status-completed :
    (job : Job) (rows : List JobSession)
    → is_active job.status ≡ true
    → (derive_status job rows (counts_of rows) ≡ completed)
      ↔ ((0 < length rows) × ((counts_of rows).completed_sessions ≡ length rows))
unfolding derive_status
derive_status-completed job [] active = ground arith
derive_status-completed job (row ∷ rows) active = ground (arith, counts_of-length (row ∷ rows))

derive_status-failed :
    (job : Job) (rows : List JobSession)
    → is_active job.status ≡ true
    → (derive_status job rows (counts_of rows) ≡ failed) ↔ (
        ((counts_of rows).pending_sessions + (counts_of rows).running_sessions ≡ 0)
        × (0 < (counts_of rows).failed_sessions))
unfolding derive_status counts_of count
derive_status-failed job [] active = ground arith
derive_status-failed job (row ∷ rows) active = ground (arith, counts_of-length (row ∷ rows))

-- Some row of a job has a status of a kind.
abbrev pub HasRow : (Status → Bool) → ℕ → List JobSession → Type 0
HasRow test id [] = ⊥
HasRow test id (row ∷ rows) = ((row.job_id ≡ id) × (test row.status ≡ true)) ⊎ HasRow test id rows

-- All rows of a job have a status of a kind.
abbrev pub AllRows : (Status → Bool) → ℕ → List JobSession → Type 0
AllRows test id [] = Unit
AllRows test id (row ∷ rows) = (row.job_id ≡ id → test row.status ≡ true) × AllRows test id rows

-- How the counts over the rows of a job show what these rows are.
module _ (test : Status → Bool) (id : ℕ) where
  count-HasRow :
      (rows : List JobSession)
      → (0 < count (λ row. test row.status) (rows_of id rows)) ↔ HasRow test id rows
  unfolding count rows_of select
  count-HasRow [] = ground arith
  count-HasRow (x ∷ rows) = ground (arith, count-HasRow rows)

  count-AllRows :
      (rows : List JobSession)
      → (count (λ row. test row.status) (rows_of id rows) ≡ length (rows_of id rows))
        ↔ AllRows test id rows
  unfolding count rows_of select
  count-AllRows [] = ground arith
  count-AllRows (x ∷ rows) =
      ground (arith, count-AllRows rows, count-le-length (λ row. test row.status) (rows_of id rows))

-- Every status.
abbrev pub is_any : Status → Bool
is_any status = true

abbrev pub is_closed : Status → Bool
is_closed status = not (is_active status)

count-any : (rows : List JobSession) → count (λ row. is_any row.status) rows ≡ length rows
unfolding count
count-any [] = refl
count-any (x ∷ rows) = ground (arith, count-any rows)

open-AllRows :
    (id : ℕ) (rows : List JobSession)
    → ((counts_of (rows_of id rows)).pending_sessions
          + (counts_of (rows_of id rows)).running_sessions
        ≡ 0)
      ↔ AllRows is_closed id rows
unfolding counts_of count rows_of select
open-AllRows id [] = ground arith
open-AllRows id (x ∷ rows) = ground (arith, open-AllRows id rows)

aggregate-job :
    (now id : ℕ) (db db' : Store) (job : Job) (a : Aggregation)
    → db.jobs id ≡ some job
    → aggregate now id db ≡ ok (a, db')
    → (db'.jobs id ≡ some (aggregated_job (rows_of id db.job_sessions) now job))
      × (a.status ≡ (aggregated_job (rows_of id db.job_sessions) now job).status)
unfolding aggregate
aggregate-job now id db db' job a found h = ground arith

-- The aggregation of an active job leaves the job in the table with the status that it answers. This
-- is completed exactly when the table has a job-session of the job and every one of them is completed,
-- and failed exactly when none of the job's job-sessions in the table is pending or running and one of
-- them is failed.
pub aggregate-status :
    (now id : ℕ) (db db' : Store) (job : Job) (a : Aggregation)
    → db.jobs id ≡ some job
    → is_active job.status ≡ true
    → aggregate now id db ≡ ok (a, db')
    → ((after : Job) × (db'.jobs id ≡ some after) × (after.status ≡ a.status))
      × ((a.status ≡ completed)
          ↔ (HasRow is_any id db.job_sessions × AllRows is_completed id db.job_sessions))
      × ((a.status ≡ failed)
          ↔ (AllRows is_closed id db.job_sessions × HasRow is_failed id db.job_sessions))
unfolding counts_of
aggregate-status now id db db' job a found active h =
    let (placed, status) = aggregate-job now id db db' job a found h in
    let rows = rows_of id db.job_sessions in
    (
      (aggregated_job rows now job, placed, sym status),
      rw (status, aggregated_job-status rows now job active) ground
          (
            arith,
            derive_status-completed job rows active,
            count-HasRow is_any id db.job_sessions,
            count-AllRows is_completed id db.job_sessions,
            count-any rows,
          ),
      rw (status, aggregated_job-status rows now job active) ground
          (
            arith,
            derive_status-failed job rows active,
            open-AllRows id db.job_sessions,
            count-HasRow is_failed id db.job_sessions,
          ),
    )

-- A second aggregation over the same job-sessions changes nothing, whenever it runs.
pub aggregated_job-again :
    (rows : List JobSession) (now later : ℕ) (job : Job)
    → aggregated_job rows later (aggregated_job rows now job) ≡ aggregated_job rows now job
unfolding aggregated_job derive_status timed_job error_job start_of
aggregated_job-again rows now later job = ground arith
