-- ===== src/Orchestration/Aggregation.antt =====
-- `aggregate_backfill_job`, `_derive_active_job_status` and `_apply_job_aggregation`.
use text.Mathlib.Text.{◌==◌ as str_eq}
use formula1_dashboard.Common.{
  ℕ, String, Bool, true, false, not, Option, none, some, List, [], ◌∷◌, Outcome, ok, ◌>>=◌, ◌>>◌,
  guard, or_raise, ltb, ◌==◌, ◌||◌, if◌then◌else◌, count, any, select, length, is_none, or_else,
  min,
}
use formula1_dashboard.Store.{
  Store, Job, JobSession, Status, pending, running, completed, failed, StoreError, transaction_open,
  job_not_found, is_pending, is_running, is_completed, is_failed, update, SanitizedFailure,
}

-- `SESSION_INGESTION_FAILED`.
abbrev pub session_ingestion_failed : SanitizedFailure
session_ingestion_failed = record {
  code = "session_ingestion_failed";
  message = "One or more session ingestions failed.";
}

-- The counts of a job's rows by status.
pub record Counts : Type 0 where
  pub pending_sessions : ℕ
  pub running_sessions : ℕ
  pub completed_sessions : ℕ
  pub failed_sessions : ℕ

-- `BackfillJobAggregation`.
pub record Aggregation : Type 0 where
  pub job_id : ℕ
  pub status : Status
  pub total_sessions : ℕ
  pub counts : Counts
  pub aggregated_at : ℕ
  pub completed_at : Option ℕ

-- The rows of one job.
unfoldable pub rows_of : ℕ → List JobSession → List JobSession
rows_of id rows = select (λ row. row.job_id == id) rows

unfoldable pub counts_of : List JobSession → Counts
counts_of rows = record {
  pending_sessions = count (λ row. is_pending row.status) rows;
  running_sessions = count (λ row. is_running row.status) rows;
  completed_sessions = count (λ row. is_completed row.status) rows;
  failed_sessions = count (λ row. is_failed row.status) rows;
}

-- `_derive_active_job_status`.
unfoldable pub derive_status : Job → List JobSession → Counts → Status
derive_status job [] counts = job.status
derive_status job (row ∷ rows) counts =
    if ltb 0 counts.pending_sessions || ltb 0 counts.running_sessions
    then if is_running job.status
        || not (is_none job.started_at)
        || ltb 0 counts.running_sessions
        || ltb 0 counts.completed_sessions
        || ltb 0 counts.failed_sessions
        || any (λ item. ltb 0 item.attempt_count) (row ∷ rows)
      then running
      else pending
    else if ltb 0 counts.failed_sessions
    then failed
    else completed

-- `min` of the starts that there are.
unfoldable pub earliest_start : List JobSession → Option ℕ
earliest_start [] = none
earliest_start (row ∷ rows) = elim row.started_at [
  | none ↦ earliest_start rows
  | some t ↦ some (elim (earliest_start rows) [ none ↦ t | some u ↦ min t u ])
]

-- `job.started_at or (min(child_starts) if child_starts else None) or aggregated_at`.
unfoldable pub start_of : Option ℕ → List JobSession → ℕ → ℕ
unfolding earliest_start
start_of none rows now = or_else (earliest_start rows) now
start_of (some t) rows now = t

abbrev is_over : Status → Bool
is_over completed = true
is_over failed = true
is_over _ = false

abbrev is_session_failure : Option String → Bool
is_session_failure none = false
is_session_failure (some code) = str_eq code session_ingestion_failed.code

-- The start and the completion of a job with a new status.
unfoldable pub timed_job : Job → List JobSession → Status → ℕ → Job
unfolding start_of
timed_job job rows status now = record job {
  status = status;
  started_at =
      if is_pending status then job.started_at else some (start_of job.started_at rows now);
  heartbeat_at = if is_over status then none else job.heartbeat_at;
  completed_at = if is_over status then some (or_else job.completed_at now) else job.completed_at;
}

-- The error columns of a job with a new status.
unfoldable pub error_job : Counts → Job → Job
error_job counts job =
    if ltb 0 counts.failed_sessions
    then record job {
      last_error_code = some session_ingestion_failed.code;
      last_error_message = some session_ingestion_failed.message;
    }
    else if is_completed job.status || is_session_failure job.last_error_code
    then record job { last_error_code = none; last_error_message = none }
    else job

-- The job after `_apply_job_aggregation`, unless it is over already.
unfoldable pub aggregated_job : List JobSession → ℕ → Job → Job
unfolding counts_of derive_status timed_job error_job
aggregated_job rows now job =
    let counts = counts_of rows in
    if is_over job.status
    then job
    else error_job counts (timed_job job rows (derive_status job rows counts) now)

unfoldable pub aggregate : ℕ → ℕ → Store → Outcome StoreError (Aggregation × Store)
unfolding rows_of aggregated_job counts_of
aggregate now id db = do
  guard (not db.in_transaction) transaction_open
  let rows = rows_of id db.job_sessions
  found ← or_raise job_not_found (db.jobs id)
  let job = aggregated_job rows now found
  ok (
    record {
      job_id = job.id;
      status = job.status;
      total_sessions = length rows;
      counts = counts_of rows;
      aggregated_at = now;
      completed_at = job.completed_at;
    },
    record db { jobs = update db.jobs id (some job) },
  )
