-- ===== src/Orchestration/Claim.antt =====
-- `claim_next_archive_job_session`.
use formula1_dashboard.Common.{
  ℕ, ◌+◌, Bool, true, false, not, Option, none, some, List, [], ◌∷◌, Outcome, ok, ◌>>=◌, ◌>>◌,
  guard, or_raise, ltb, leb, ◌==◌, ◌&&◌, ◌||◌, if◌then◌else◌, or_else,
}
use formula1_dashboard.Policy.Number.{microseconds}
use formula1_dashboard.Policy.Settings.{ValidSettings}
use formula1_dashboard.Budget.{pacing}
use formula1_dashboard.Store.{
  Store, Job, JobSession, Ingestion, running, fastf1_archive, finalized, StoreError,
  transaction_open, gate_missing, source_conflict, already_running, claim_ownership, is_running,
  is_pending, is_active, is_archive, update, put_row,
}
use formula1_dashboard.Orchestration.Rows.{Claim, lock_session}

-- The readings of the clock in one claim: `now()` of the transaction, the first `_database_now`, and
-- the one at the claim.
pub record Readings : Type 0 where
  pub transaction_at : ℕ
  pub read_at : ℕ
  pub claimed_at : ℕ

-- `next_retry_at.asc().nulls_first()` and then the next key of the order.
abbrev nulls_first : Option ℕ → Option ℕ → Bool → Bool
nulls_first none none next = next
nulls_first none (some b) next = true
nulls_first (some a) none next = false
nulls_first (some a) (some b) next = ltb a b || (a == b && next)

-- The `ORDER BY` of the claim.
unfoldable pub is_before : JobSession → JobSession → Bool
is_before a b = nulls_first a.next_retry_at b.next_retry_at (
    ltb a.queued_at b.queued_at
    || (a.queued_at == b.queued_at
        && (ltb a.job_id b.job_id || (a.job_id == b.job_id && ltb a.session_id b.session_id))))

-- The first row of an ordered query.
unfoldable pub first_row : (JobSession → Bool) → List JobSession → Option JobSession
unfolding is_before
first_row test [] = none
first_row test (row ∷ rows) =
    let rest = first_row test rows in
    if test row
    then elim rest [
      | none ↦ some row
      | some best ↦ if is_before best row then some best else some row
    ]
    else rest

-- `next_retry_at IS NULL OR next_retry_at <= now()`.
abbrev is_due : ℕ → Option ℕ → Bool
is_due now none = true
is_due now (some t) = leb t now

-- The join with the job, by its status.
abbrev has_active_job : Option Job → Bool
has_active_job none = false
has_active_job (some job) = is_active job.status

-- The `WHERE` of the claim; `locked` are the rows that `SKIP LOCKED` passes over.
unfoldable pub is_claimable : ValidSettings → ℕ → (JobSession → Bool) → Store → JobSession → Bool
is_claimable s now locked db row =
    has_active_job (db.jobs row.job_id)
    && is_pending row.status
    && ltb row.attempt_count s.max_attempts
    && is_due now row.next_retry_at
    && not (locked row)

-- The job after a claim.
abbrev pub claimed_job : ℕ → Job → Job
claimed_job at job = record job {
  status = running;
  started_at = some (or_else job.started_at at);
  heartbeat_at = some at;
}

-- The job-session after a claim.
abbrev pub claimed_row : ℕ → JobSession → JobSession
claimed_row at row = record row {
  status = running;
  attempt_count = row.attempt_count + 1;
  started_at = some at;
  heartbeat_at = some at;
  next_retry_at = none;
  completed_at = none;
}

-- The ingestion after a claim, which is made where there is none.
unfoldable pub claimed_ingestion : ℕ → ℕ → Option Ingestion → Ingestion
claimed_ingestion session at none = record {
  session_id = session;
  status = running;
  source = fastf1_archive;
  record_state = finalized;
  attempt_count = 1;
  first_started_at = some at;
  last_started_at = some at;
  heartbeat_at = some at;
  next_retry_at = none;
  completed_at = none;
  source_updated_at = none;
  last_error_code = none;
  last_error_message = none;
}
claimed_ingestion session at (some ingestion) = record ingestion {
  status = running;
  record_state = finalized;
  attempt_count = ingestion.attempt_count + 1;
  first_started_at = some (or_else ingestion.first_started_at at);
  last_started_at = some at;
  heartbeat_at = some at;
  next_retry_at = none;
}

-- The tests on an ingestion that is there already.
unfoldable pub check_claimable_ingestion : Option Ingestion → Outcome StoreError (Unit {0})
check_claimable_ingestion none = ok tt
check_claimable_ingestion (some ingestion) = do
  guard (is_archive ingestion.source) source_conflict
  guard (not (is_running ingestion.status)) already_running

-- The part of the claim after a row was found.
unfoldable pub claim_row :
    ValidSettings → Readings → Store → JobSession → Outcome StoreError (Option Claim × Store)
unfolding lock_session check_claimable_ingestion claimed_ingestion
claim_row s clock db row = do
  job ← or_raise claim_ownership (db.jobs row.job_id)
  guard (is_active job.status) claim_ownership
  target ← lock_session row.session_id db
  check_claimable_ingestion (db.ingestions row.session_id)
  let ingestion = claimed_ingestion row.session_id clock.claimed_at (db.ingestions row.session_id)
  ok (
    some (record {
      job_id = row.job_id;
      session_id = row.session_id;
      job_attempt_count = row.attempt_count + 1;
      session_attempt_token = ingestion.attempt_count;
      claimed_at = clock.claimed_at;
    }),
    record db {
      gate = some (record {
        next_request_at = clock.claimed_at + microseconds s.archive_session_min_interval_seconds;
        reason = pacing;
      });
      jobs = update db.jobs row.job_id (some (claimed_job clock.claimed_at job));
      job_sessions = put_row (claimed_row clock.claimed_at row) db.job_sessions;
      ingestions = update db.ingestions row.session_id (some ingestion);
    },
  )

unfoldable pub claim_next :
    ValidSettings
    → Readings
    → (JobSession → Bool)
    → Store
    → Outcome StoreError (Option Claim × Store)
unfolding first_row is_claimable claim_row
claim_next s clock locked db = do
  guard (not db.in_transaction) transaction_open
  gate ← or_raise gate_missing db.gate
  if ltb clock.read_at gate.next_request_at
      then ok (none, db)
      else (elim (first_row (is_claimable s clock.transaction_at locked db) db.job_sessions) [
        | none ↦ ok (none, db)
        | some row ↦ claim_row s clock db row
      ])
