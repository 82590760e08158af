-- ===== src/Store.antt =====
-- The tables that the backfill works on: backend/app/db/models/backfill.py and ingestion.py, the
-- gate of request_gate.py, and the row lookups of
-- backend/app/ingestion/backfill_orchestration.py. A transaction is one step on the whole store; an
-- error rolls it back. Job ids (UUIDs) and session ids are numbers, in the database's order.
pub mod Rows
pub mod Counts
use formula1_dashboard.Common.{
  ℕ, ◌+◌, ◌<◌, String, Bool, true, false, Option, none, some, List, [], ◌∷◌, Outcome, ok, err, ltb,
  leb, ◌==◌, ◌&&◌, ◌≡◌, if◌then◌else◌, is_none,
}
use formula1_dashboard.Budget.{Gate}

-- `INGESTION_STATUSES`.
pub data Status : Type 0 where
  pending running completed failed : Status

-- `SOURCES`.
pub data Source : Type 0 where
  live_signalr fastf1_archive jolpica : Source

-- `RECORD_STATES`.
pub data RecordState : Type 0 where
  provisional finalized : RecordState

-- `REQUEST_REASONS`.
pub data RequestReason : Type 0 where
  missing partial stale manual : RequestReason

-- `SanitizedArchiveFailure`.
pub record SanitizedFailure : Type 0 where
  pub code : String
  pub message : String

pub record Job : Type 0 where
  pub id : ℕ
  pub season_year : ℕ
  pub status : Status
  pub request_reason : RequestReason
  pub requested_at : ℕ
  pub started_at : Option ℕ
  pub heartbeat_at : Option ℕ
  pub completed_at : Option ℕ
  pub last_error_code : Option String
  pub last_error_message : Option String

pub record JobSession : Type 0 where
  pub job_id : ℕ
  pub session_id : ℕ
  pub status : Status
  pub attempt_count : ℕ
  pub queued_at : ℕ
  pub started_at : Option ℕ
  pub heartbeat_at : Option ℕ
  pub next_retry_at : Option ℕ
  pub completed_at : Option ℕ
  pub last_error_code : Option String
  pub last_error_message : Option String

pub record Ingestion : Type 0 where
  pub session_id : ℕ
  pub status : Status
  pub source : Source
  pub record_state : RecordState
  pub attempt_count : ℕ
  pub first_started_at : Option ℕ
  pub last_started_at : Option ℕ
  pub heartbeat_at : Option ℕ
  pub next_retry_at : Option ℕ
  pub completed_at : Option ℕ
  pub source_updated_at : Option ℕ
  pub last_error_code : Option String
  pub last_error_message : Option String

-- `ArchiveSessionIdentity`: what a row of the sessions table and its event say.
pub record SessionIdentity : Type 0 where
  pub session_id : ℕ
  pub season_year : ℕ
  pub round_number : ℕ
  pub session_name : String

-- The tables, and whether the caller's session has a transaction open already. `job_ids` are the keys
-- of the jobs, in the order of their insertion.
pub record Store : Type 0 where
  pub in_transaction : Bool
  pub gate : Option Gate
  pub job_ids : List ℕ
  pub jobs : ℕ → Option Job
  pub job_sessions : List JobSession
  pub ingestions : ℕ → Option Ingestion
  pub sessions : ℕ → Option SessionIdentity

-- The exceptions of the orchestration, by class and cause.
pub data StoreError : Type 0 where
  transaction_open : StoreError
  gate_missing : StoreError
  job_not_found : StoreError
  session_not_found : StoreError
  source_conflict : StoreError
  already_running : StoreError
  claim_ownership : StoreError
  target_changed : StoreError
  policy_refused : StoreError
  batch_size_range : StoreError
  state_conflict : StoreError
  contract : StoreError

abbrev pub is_running : Status → Bool
is_running running = true
is_running _ = false

abbrev pub is_pending : Status → Bool
is_pending pending = true
is_pending _ = false

abbrev pub is_completed : Status → Bool
is_completed completed = true
is_completed _ = false

abbrev pub is_failed : Status → Bool
is_failed failed = true
is_failed _ = false

-- `status in ("pending", "running")`.
abbrev pub is_active : Status → Bool
is_active pending = true
is_active running = true
is_active _ = false

-- The condition of the index `uq_backfill_jobs_active_season`, for one season.
abbrev pub is_active_for : ℕ → Option Job → Bool
is_active_for year none = false
is_active_for year (some job) = job.season_year == year && is_active job.status

abbrev pub is_archive : Source → Bool
is_archive fastf1_archive = true
is_archive _ = false

abbrev pub update {ℓ} : {A : Type ℓ} → (ℕ → A) → ℕ → A → ℕ → A
update f k v j = if k == j then v else f j

abbrev pub has_key : ℕ → ℕ → JobSession → Bool
has_key job session row = row.job_id == job && row.session_id == session

-- The row with a primary key.
unfoldable pub find_row : ℕ → ℕ → List JobSession → Option JobSession
find_row job session [] = none
find_row job session (row ∷ rows) =
    let rest = find_row job session rows in if has_key job session row then some row else rest

-- A row written back under its primary key.
unfoldable pub put_row : JobSession → List JobSession → List JobSession
put_row new [] = []
put_row new (row ∷ rows) =
    let rest = put_row new rows in
    if has_key new.job_id new.session_id row then new ∷ rows else row ∷ rest

-- The primary key of the table: no two rows share it.
abbrev pub UniqueRows : List JobSession → Type 0
UniqueRows [] = Unit
UniqueRows (row ∷ rows) =
    (is_none (find_row row.job_id row.session_id rows) ≡ true) × UniqueRows rows
