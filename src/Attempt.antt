-- ===== src/Attempt.antt =====
-- backend/app/ingestion/archive_attempt.py: the archive attempt without a job. The ingestion of the
-- archive, with the transactions that it commits, is an argument.
pub mod Outcomes
use formula1_dashboard.Common.{
  ℕ, ◌+◌, ◌≤◌, ◌≡◌, refl, Bool, true, false, not, Option, none, some, Outcome, ok, err, ◌>>=◌, ◌>>◌,
  guard, or_raise, ◌==◌, ◌&&◌, if◌then◌else◌, or_else, arith, Option-cases, inl, inr, is_ok,
}
use formula1_dashboard.Failures.{ArchiveError, sanitize}
use formula1_dashboard.Store.{
  Store, Ingestion, SanitizedFailure, pending, running, failed, fastf1_archive, finalized,
  StoreError, source_conflict, already_running, state_conflict, is_running, is_archive, update,
}
use formula1_dashboard.Orchestration.Rows.{lock_session}

-- A new row of the ingestion table, with the columns that have no value yet.
unfoldable pub new_ingestion : ℕ → Ingestion
new_ingestion session = record {
  session_id = session;
  status = pending;
  source = fastf1_archive;
  record_state = finalized;
  attempt_count = 0;
  first_started_at = none;
  last_started_at = none;
  heartbeat_at = none;
  next_retry_at = none;
  completed_at = none;
  source_updated_at = none;
  last_error_code = none;
  last_error_message = none;
}

-- `_ensure_archive_state` and the test on the status, of a row that is there.
unfoldable pub check_idle : Option Ingestion → Outcome StoreError (Unit {0})
check_idle none = ok tt
check_idle (some ingestion) = do
  guard (is_archive ingestion.source) source_conflict
  guard (not (is_running ingestion.status)) already_running

abbrev pending_ingestion : Ingestion → Ingestion
pending_ingestion ingestion = record ingestion {
  status = pending;
  record_state = finalized;
  heartbeat_at = none;
  next_retry_at = none;
}

unfoldable pub pending_row : ℕ → Option Ingestion → Ingestion
unfolding new_ingestion
pending_row session none = new_ingestion session
pending_row session (some ingestion) = pending_ingestion ingestion

-- `mark_archive_ingestion_pending`; the answer is the row.
unfoldable pub mark_pending : ℕ → Store → Outcome StoreError (Ingestion × Store)
unfolding lock_session check_idle pending_row
mark_pending session db = do
  target ← lock_session session db
  check_idle (db.ingestions session)
  let ingestion = pending_row session (db.ingestions session)
  ok (ingestion, record db { ingestions = update db.ingestions session (some ingestion) })

abbrev started_ingestion : ℕ → Ingestion → Ingestion
started_ingestion at ingestion = record ingestion {
  status = running;
  record_state = finalized;
  attempt_count = ingestion.attempt_count + 1;
  first_started_at = some (or_else ingestion.first_started_at at);
  last_started_at = some at;
  heartbeat_at = none;
  next_retry_at = none;
}

-- A new row is made running at once, at attempt 1.
unfoldable pub started_row : ℕ → ℕ → Option Ingestion → Ingestion
unfolding new_ingestion
started_row session at none = started_ingestion at (new_ingestion session)
started_row session at (some ingestion) = started_ingestion at ingestion

-- `_mark_running`; the answer is the number of the attempt.
unfoldable pub mark_running : ℕ → ℕ → Store → Outcome StoreError (ℕ × Store)
unfolding lock_session check_idle started_row
mark_running session at db = do
  target ← lock_session session db
  check_idle (db.ingestions session)
  let ingestion = started_row session at (db.ingestions session)
  ok (
    ingestion.attempt_count,
    record db { ingestions = update db.ingestions session (some ingestion) },
  )

abbrev pub given_up : SanitizedFailure → Ingestion → Ingestion
given_up failure ingestion = record ingestion {
  status = failed;
  record_state = finalized;
  heartbeat_at = none;
  next_retry_at = none;
  last_error_code = some failure.code;
  last_error_message = some failure.message;
}

-- `_mark_failed`.
unfoldable pub mark_failed : ℕ → ℕ → SanitizedFailure → Store → Outcome StoreError Store
unfolding lock_session
mark_failed session attempt failure db = do
  target ← lock_session session db
  ingestion ← or_raise state_conflict (db.ingestions session)
  guard
      (is_archive ingestion.source
        && is_running ingestion.status
        && ingestion.attempt_count == attempt)
      state_conflict
  ok (record db { ingestions = update db.ingestions session (some (given_up failure ingestion)) })

-- What `run_fastf1_archive_ingestion_attempt` raises.
pub data AttemptError : Type 0 where
  not_started : StoreError → AttemptError
  raised : ArchiveError → AttemptError

-- The store after the failure of an attempt was recorded, or could not be.
unfoldable pub record_failure : ℕ → ℕ → ArchiveError → Store → Store
unfolding mark_failed
record_failure session attempt error db = elim (mark_failed session attempt (sanitize error) db) [
  | ok db' ↦ db'
  | err _ ↦ db
]

module _ {A : Type 0} (ingest : Store → Store × Outcome ArchiveError A) where
  -- The attempt after it was marked running.
  unfoldable pub run_started : ℕ → ℕ → Store → Store × Outcome AttemptError (ℕ × A)
  unfolding record_failure
  run_started session attempt db =
      let (db', result) = ingest db in
      elim result [
        | ok a ↦ (db', ok (attempt, a))
        | err e ↦ (record_failure session attempt e db', err (raised e))
      ]

  -- `run_fastf1_archive_ingestion_attempt`.
  unfoldable pub run_attempt : ℕ → ℕ → Store → Store × Outcome AttemptError (ℕ × A)
  unfolding mark_running run_started
  run_attempt session at db = elim (mark_running session at db) [
    | err e ↦ (db, err (not_started e))
    | ok (attempt, db') ↦ run_started session attempt db'
  ]
