-- ===== src/Orchestration/Failure.antt =====
-- `transition_archive_job_failure`.
use formula1_dashboard.Common.{
  ℕ, ◌+◌, ◌-◌, Bool, true, false, not, Option, none, some, Outcome, ok, err, ◌>>=◌, ◌>>◌, guard,
  ltb, ◌&&◌, if◌then◌else◌, max, is_none,
}
use formula1_dashboard.Policy.Number.{Number, microseconds}
use formula1_dashboard.Policy.Settings.{ValidSettings}
use formula1_dashboard.Policy.Retry.{calculate_retry_schedule}
use formula1_dashboard.Budget.{Gate, budget, rate_limit as rate_limit_reason}
use formula1_dashboard.Failures.{
  ArchiveError, request_budget_exhausted, rate_limit, RetryDisposition, retryable, terminal,
  classify_retry, sanitize,
}
use formula1_dashboard.Store.{
  Store, JobSession, Ingestion, Status, pending, failed, finalized, SanitizedFailure, StoreError,
  transaction_open, gate_missing, policy_refused, update, put_row,
}
use formula1_dashboard.Orchestration.Rows.{
  Claim, owned_row, running_job, lock_session, owned_ingestion,
}

-- `ArchiveJobFailureTransition`.
pub record Transition : Type 0 where
  pub claim : Claim
  pub disposition : RetryDisposition
  pub status : Status
  pub failed_at : ℕ
  pub next_retry_at : Option ℕ
  pub failure : SanitizedFailure

-- What is decided of a failed attempt: the status, the time of the retry, whether the attempt is
-- given back, and the gate.
pub record Decision : Type 0 where
  pub status : Status
  pub next_retry_at : Option ℕ
  pub attempt_count : ℕ
  pub gate : Option Gate

-- The pause that an error asks for: when it ends and its reason.
unfoldable pub pause_of : ValidSettings → ℕ → ArchiveError → Option Gate
pause_of s failed_at (request_budget_exhausted retry_at) =
    some (record { next_request_at = retry_at; reason = budget })
pause_of s failed_at rate_limit = some (record {
  next_request_at = failed_at + microseconds s.fastf1_rate_limit_cooldown_seconds;
  reason = rate_limit_reason;
})
pause_of s failed_at _ = none

abbrev pub is_retryable : RetryDisposition → Bool
is_retryable retryable = true
is_retryable terminal = false

-- `calculate_retry_schedule`, whose error rolls the transaction back.
unfoldable pub retry_at : ValidSettings → ℕ → ℕ → Number → Outcome StoreError ℕ
retry_at s now attempt jitter =
    elim (calculate_retry_schedule (record { instant = now; has_timezone = true }) attempt jitter
      s) [ ok schedule ↦ ok schedule.next_retry_at | err _ ↦ err policy_refused ]

-- The branch with no pause: retry within the attempts that are left, or fail.
unfoldable pub decide_retry :
    ValidSettings
    → ℕ
    → Claim
    → ArchiveError
    → Number
    → JobSession
    → Option Gate
    → Outcome StoreError Decision
unfolding retry_at
decide_retry s failed_at claim error jitter row gate =
    if is_retryable (classify_retry error) && ltb claim.job_attempt_count s.max_attempts
    then (do
      at ← retry_at s failed_at claim.job_attempt_count jitter
      ok (record {
        status = pending;
        next_retry_at = some at;
        attempt_count = row.attempt_count;
        gate = gate;
      }))
    else ok (record {
      status = failed;
      next_retry_at = none;
      attempt_count = row.attempt_count;
      gate = gate;
    })

-- The branch with a pause, which gives the attempt back and closes the gate.
unfoldable pub decide_pause : Gate → JobSession → Gate → Decision
decide_pause pause row gate = record {
  status = pending;
  next_retry_at = some pause.next_request_at;
  attempt_count = row.attempt_count - 1;
  gate = some (record {
    next_request_at = max gate.next_request_at pause.next_request_at;
    reason = pause.reason;
  });
}

unfoldable pub decide :
    ValidSettings
    → ℕ
    → Claim
    → ArchiveError
    → Number
    → JobSession
    → Option Gate
    → Option Gate
    → Outcome StoreError Decision
unfolding decide_retry decide_pause
decide s failed_at claim error jitter row none gate =
    decide_retry s failed_at claim error jitter row gate
decide s failed_at claim error jitter row (some pause) none = err gate_missing
decide s failed_at claim error jitter row (some pause) (some gate) =
    ok (decide_pause pause row gate)

-- The job-session and the ingestion after the decision.
abbrev pub failed_row : Decision → SanitizedFailure → JobSession → JobSession
failed_row d failure row = record row {
  status = d.status;
  attempt_count = d.attempt_count;
  heartbeat_at = none;
  next_retry_at = d.next_retry_at;
  last_error_code = some failure.code;
  last_error_message = some failure.message;
}

abbrev pub failed_ingestion : Decision → SanitizedFailure → Ingestion → Ingestion
failed_ingestion d failure ingestion = record ingestion {
  status = d.status;
  record_state = finalized;
  heartbeat_at = none;
  next_retry_at = d.next_retry_at;
  last_error_code = some failure.code;
  last_error_message = some failure.message;
}

-- A gate that is missing is raised before the rows are read; with a gate, or with no pause, the
-- order of the lookups is that of the source.
unfoldable pub check_gate : Option Gate → Option Gate → Outcome StoreError (Unit {0})
check_gate none gate = ok tt
check_gate (some pause) gate = guard (not (is_none gate)) gate_missing

unfoldable pub transition_failure :
    ValidSettings
    → ℕ
    → Claim
    → ArchiveError
    → Number
    → Store
    → Outcome StoreError (Transition × Store)
unfolding owned_row running_job lock_session owned_ingestion check_gate decide
transition_failure s failed_at claim error jitter db = do
  guard (not db.in_transaction) transaction_open
  let pause = pause_of s failed_at error
  check_gate pause db.gate
  row ← owned_row claim db
  job ← running_job claim.job_id db
  target ← lock_session claim.session_id db
  ingestion ← owned_ingestion claim db
  decision ← decide s failed_at claim error jitter row pause db.gate
  let failure = sanitize error
  ok (
    record {
      claim = claim;
      disposition = classify_retry error;
      status = decision.status;
      failed_at = failed_at;
      next_retry_at = decision.next_retry_at;
      failure = failure;
    },
    record db {
      gate = decision.gate;
      job_sessions = put_row (failed_row decision failure row) db.job_sessions;
      ingestions =
          update db.ingestions claim.session_id
            (some (failed_ingestion decision failure ingestion));
    },
  )
