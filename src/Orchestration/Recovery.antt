-- ===== src/Orchestration/Recovery.antt =====
-- `recover_stale_archive_job_sessions`.
use formula1_dashboard.Common.{
  ℕ, ◌+◌, Bool, true, false, not, Option, none, some, List, [], ◌∷◌, Outcome, ok, ◌>>=◌, ◌>>◌,
  guard, ltb, leb, ◌==◌, ◌&&◌, ◌||◌, if◌then◌else◌, take, select,
}
use formula1_dashboard.Policy.Number.{Number, microseconds}
use formula1_dashboard.Policy.Settings.{ValidSettings}
use formula1_dashboard.Store.{
  Store, Job, JobSession, Ingestion, Status, pending, failed, finalized, SanitizedFailure,
  StoreError, transaction_open, batch_size_range, is_running, is_archive, update, put_row, find_row,
}
use formula1_dashboard.Orchestration.Rows.{lock_session}
use formula1_dashboard.Orchestration.Failure.{retry_at}

-- `WORKER_LEASE_EXPIRED_FAILURE`.
abbrev pub lease_expired : SanitizedFailure
lease_expired = record {
  code = "worker_lease_expired";
  message = "The worker lease expired before session ingestion completed.";
}

-- `RecoveredArchiveLease`.
pub record RecoveredLease : Type 0 where
  pub job_id : ℕ
  pub session_id : ℕ
  pub job_attempt_count : ℕ
  pub session_attempt_token : ℕ
  pub status : Status
  pub recovered_at : ℕ
  pub next_retry_at : Option ℕ
  pub failure : SanitizedFailure

-- What the environment answers in one recovery: the clock of the query for each row, the rows that
-- others hold locked, the clock in the loop and the jitter, by the round of the loop.
pub record Environment : Type 0 where
  pub scanned_at : JobSession → ℕ
  pub locked : JobSession → Bool
  pub recovered_at : ℕ → ℕ
  pub jitter : ℕ → Number

-- `heartbeat_at IS NOT NULL AND heartbeat_at < now - lease_timeout`.
unfoldable pub is_expired : ValidSettings → ℕ → Option ℕ → Bool
is_expired s now none = false
is_expired s now (some beat) = ltb (beat + microseconds s.lease_timeout_seconds) now

abbrev has_running_job : Option Job → Bool
has_running_job none = false
has_running_job (some job) = is_running job.status

-- The `WHERE` of the query.
unfoldable pub is_stale : ValidSettings → Environment → Store → JobSession → Bool
unfolding is_expired
is_stale s env db row =
    has_running_job (db.jobs row.job_id)
    && is_running row.status
    && is_expired s (env.scanned_at row) row.heartbeat_at
    && not (env.locked row)

abbrev beat_before : Option ℕ → Option ℕ → Bool → Bool
beat_before (some a) (some b) next = ltb a b || (a == b && next)
beat_before (some a) none next = true
beat_before none (some b) next = false
beat_before none none next = next

-- The `ORDER BY` of the query.
unfoldable pub beats_before : JobSession → JobSession → Bool
beats_before a b =
    beat_before a.heartbeat_at b.heartbeat_at
      (ltb a.job_id b.job_id || (a.job_id == b.job_id && ltb a.session_id b.session_id))

unfoldable pub insert_row : JobSession → List JobSession → List JobSession
unfolding beats_before
insert_row row [] = row ∷ []
insert_row row (x ∷ xs) =
    let rest = insert_row row xs in if beats_before row x then row ∷ x ∷ xs else x ∷ rest

unfoldable pub sort_rows : List JobSession → List JobSession
unfolding insert_row
sort_rows [] = []
sort_rows (x ∷ xs) = insert_row x (sort_rows xs)

-- The rows of the query, at most `batch_size` of them.
unfoldable pub stale_rows : ValidSettings → Environment → ℕ → Store → List JobSession
unfolding sort_rows is_stale
stale_rows s env batch_size db =
    take batch_size (sort_rows (select (is_stale s env db) db.job_sessions))

-- The status and retry time after an expired lease.
unfoldable pub recovered_outcome :
    ValidSettings → ℕ → Number → JobSession → Outcome StoreError (Status × Option ℕ)
unfolding retry_at
recovered_outcome s now jitter row =
    if ltb row.attempt_count s.max_attempts
    then (do at ← retry_at s now row.attempt_count jitter; ok (pending, some at))
    else ok (failed, none)

abbrev pub recovered_row : Status → Option ℕ → JobSession → JobSession
recovered_row status retry row = record row {
  status = status;
  heartbeat_at = none;
  next_retry_at = retry;
  last_error_code = some lease_expired.code;
  last_error_message = some lease_expired.message;
}

abbrev pub recovered_ingestion : Status → Option ℕ → Ingestion → Ingestion
recovered_ingestion status retry ingestion = record ingestion {
  status = status;
  record_state = finalized;
  heartbeat_at = none;
  next_retry_at = retry;
  last_error_code = some lease_expired.code;
  last_error_message = some lease_expired.message;
}

-- The writes of one round, with the lease that it reports.
unfoldable pub expire_lease :
    ValidSettings
    → ℕ
    → Number
    → Job
    → JobSession
    → Ingestion
    → Store
    → Outcome StoreError (Option RecoveredLease × Store)
unfolding recovered_outcome
expire_lease s now jitter job row ingestion db = do
  outcome ← recovered_outcome s now jitter row
  ok (
    some (record {
      job_id = row.job_id;
      session_id = row.session_id;
      job_attempt_count = row.attempt_count;
      session_attempt_token = ingestion.attempt_count;
      status = outcome.0;
      recovered_at = now;
      next_retry_at = outcome.1;
      failure = lease_expired;
    }),
    record db {
      jobs = update db.jobs row.job_id (some (record job { heartbeat_at = some now }));
      job_sessions = put_row (recovered_row outcome.0 outcome.1 row) db.job_sessions;
      ingestions =
          update db.ingestions row.session_id
            (some (recovered_ingestion outcome.0 outcome.1 ingestion));
    },
  )

-- The tests on the ingestion, `continue` where one fails.
unfoldable pub recover_ingestion :
    ValidSettings
    → ℕ
    → Number
    → Job
    → JobSession
    → Option Ingestion
    → Store
    → Outcome StoreError (Option RecoveredLease × Store)
unfolding expire_lease is_expired
recover_ingestion s now jitter job row none db = ok (none, db)
recover_ingestion s now jitter job row (some ingestion) db =
    if is_archive ingestion.source
      && is_running ingestion.status
      && leb 1 row.attempt_count
      && is_expired s now ingestion.heartbeat_at
    then expire_lease s now jitter job row ingestion db
    else ok (none, db)

-- The test on the job, `continue` where it fails.
unfoldable pub recover_job :
    ValidSettings
    → ℕ
    → Number
    → JobSession
    → Option Job
    → Store
    → Outcome StoreError (Option RecoveredLease × Store)
unfolding recover_ingestion lock_session
recover_job s now jitter row none db = ok (none, db)
recover_job s now jitter row (some job) db =
    if is_running job.status
    then (do
      target ← lock_session row.session_id db
      recover_ingestion s now jitter job row (db.ingestions row.session_id) db)
    else ok (none, db)

-- One round of the loop. The row is the session's object for its key: it shows what earlier rounds
-- wrote.
unfoldable pub recover_row :
    ValidSettings → ℕ → Number → ℕ → ℕ → Store → Outcome StoreError (Option RecoveredLease × Store)
unfolding recover_job
recover_row s now jitter job session db = elim (find_row job session db.job_sessions) [
  | none ↦ ok (none, db)
  | some row ↦ recover_job s now jitter row (db.jobs row.job_id) db
]

abbrev prepend : Option RecoveredLease → List RecoveredLease → List RecoveredLease
prepend none leases = leases
prepend (some lease) leases = lease ∷ leases

-- The loop, from a round on.
unfoldable pub recover_rows :
    ValidSettings
    → Environment
    → ℕ
    → List JobSession
    → Store
    → Outcome StoreError (List RecoveredLease × Store)
unfolding recover_row
recover_rows s env round [] db = ok ([], db)
recover_rows s env round (row ∷ rows) db =
    recover_row s (env.recovered_at round) (env.jitter round) row.job_id row.session_id db
    >>= λ first.
        recover_rows s env (round + 1) rows first.1 >>= λ rest. ok (prepend first.0 rest.0, rest.1)

unfoldable pub recover_stale :
    ValidSettings → Environment → ℕ → Store → Outcome StoreError (List RecoveredLease × Store)
unfolding stale_rows recover_rows
recover_stale s env batch_size db = do
  guard (not db.in_transaction) transaction_open
  guard (leb 1 batch_size) batch_size_range
  recover_rows s env 0 (stale_rows s env batch_size db) db
