-- ===== src/Examples/Data.antt =====
-- Settings and tables for the examples. Times are microseconds.
use formula1_dashboard.Common.{
  ℕ, ◌==◌, if◌then◌else◌, Bool, true, false, none, some, [], ◌∷◌, Outcome, ok, err,
}
use formula1_dashboard.Policy.Settings.{ValidSettings}
use formula1_dashboard.Budget.{pacing}
use formula1_dashboard.Store.{Store, Job, JobSession, pending, missing, StoreError}
use formula1_dashboard.Orchestration.Rows.{Claim}
use formula1_dashboard.Orchestration.Claim.{Readings}

-- The defaults.
abbrev pub settings : ValidSettings
settings = record {
  worker_poll_interval_seconds = 2;
  archive_session_min_interval_seconds = 1;
  fastf1_rate_limit_cooldown_seconds = 3600;
  fastf1_request_window_seconds = 3600;
  fastf1_request_library_limit = 500;
  fastf1_request_operational_ceiling = 450;
  fastf1_request_warning_threshold = 400;
  max_attempts = 4;
  backoff_base_seconds = 60;
  backoff_multiplier = 2;
  backoff_cap_seconds = 900;
  jitter_min_ratio = record { num = 1; pred_den = 1 };
  heartbeat_interval_seconds = 30;
  lease_timeout_seconds = 300;
  recovery_scan_interval_seconds = 30;
  automatic_current_season_planning_enabled = true;
  automatic_current_season_planning_interval_seconds = 900;
  current_season_coverage_ttl_seconds = 21600;
  historical_season_coverage_ttl_seconds = 2592000;
  archive_availability_grace_seconds = 7200;
  archive_correction_checkpoints_seconds = 86400 ∷ 604800 ∷ [];
}

abbrev pub queued_job : Job
queued_job = record {
  id = 1;
  season_year = 2024;
  status = pending;
  request_reason = missing;
  requested_at = 10;
  started_at = none;
  heartbeat_at = none;
  completed_at = none;
  last_error_code = none;
  last_error_message = none;
}

abbrev pub queued_row : JobSession
queued_row = record {
  job_id = 1;
  session_id = 7;
  status = pending;
  attempt_count = 0;
  queued_at = 10;
  started_at = none;
  heartbeat_at = none;
  next_retry_at = none;
  completed_at = none;
  last_error_code = none;
  last_error_message = none;
}

-- One job with one queued session.
abbrev pub queued : Store
queued = record {
  in_transaction = false;
  gate = some (record { next_request_at = 0; reason = pacing });
  job_ids = 1 ∷ [];
  jobs = λ id. if id == 1 then some queued_job else none;
  job_sessions = queued_row ∷ [];
  ingestions = λ _. none;
  sessions = λ id.
      some
        (record { session_id = id; season_year = 2024; round_number = 3; session_name = "Race" });
}

abbrev pub unlocked : JobSession → Bool
unlocked row = false

abbrev pub clock_at : ℕ → Readings
clock_at t = record { transaction_at = t; read_at = t; claimed_at = t }

abbrev pub claim_numbered : ℕ → ℕ → Claim
claim_numbered attempt at = record {
  job_id = 1;
  session_id = 7;
  job_attempt_count = attempt;
  session_attempt_token = attempt;
  claimed_at = at;
}

-- The store of an answer, or the one before it.
abbrev pub store_of : {A : Type 0} → Store → Outcome StoreError (A × Store) → Store
store_of db (ok answer) = answer.1
store_of db (err e) = db
