-- ===== src/Policy/Retry.antt =====
-- `calculate_retry_schedule` of backend/app/ingestion/runtime_policy.py.
use formula1_dashboard.Common.{
  ℕ, ◌+◌, ◌-◌, ◌*◌, ◌^◌, min, Outcome, ok, ◌>>=◌, ◌>>◌, guard, or_raise, ltb, leb, Bool,
}
use formula1_dashboard.Policy.Number.{Number, unit_fraction, microseconds, equal_jitter}
use formula1_dashboard.Policy.Settings.{
  ValidSettings, PolicyError, timezone_missing, attempt_not_positive, retry_budget_exhausted,
  jitter_fraction_range, overflow,
}

-- A `datetime`: microseconds since 1970 in UTC, and whether it carries a timezone.
pub record DateTime : Type 0 where
  pub instant : ℕ
  pub has_timezone : Bool

pub record RetrySchedule : Type 0 where
  pub failed_attempt : ℕ
  pub nominal_delay : ℕ
  pub delay : ℕ
  pub next_retry_at : ℕ

-- `timedelta.max` and `datetime.max`, in microseconds.
abbrev max_duration : ℕ
max_duration = 86399999999999999999

abbrev max_instant : ℕ
max_instant = 253402300799999999

-- `min(base * multiplier ** (failed_attempt - 1), cap)`; the attempt is at least 1.
unfoldable pub nominal_seconds : ℕ → ValidSettings → ℕ
nominal_seconds failed_attempt settings =
    min (settings.backoff_base_seconds * settings.backoff_multiplier ^ (failed_attempt - 1))
      settings.backoff_cap_seconds

-- The floats are exact fractions, and the delay is rounded to whole microseconds.
unfoldable pub calculate_retry_schedule :
    DateTime → ℕ → Number → ValidSettings → Outcome PolicyError RetrySchedule
calculate_retry_schedule database_now failed_attempt jitter_fraction settings = do
  guard database_now.has_timezone (timezone_missing "database_now")
  guard (leb 1 failed_attempt) attempt_not_positive
  guard (ltb failed_attempt settings.max_attempts) retry_budget_exhausted
  jitter ← or_raise jitter_fraction_range (unit_fraction jitter_fraction)
  let nominal = nominal_seconds failed_attempt settings
  let delay = equal_jitter nominal settings.jitter_min_ratio jitter
  guard (leb (microseconds nominal) max_duration) overflow
  guard (leb (database_now.instant + delay) max_instant) overflow
  ok (record {
    failed_attempt = failed_attempt;
    nominal_delay = microseconds nominal;
    delay = delay;
    next_retry_at = database_now.instant + delay;
  })
