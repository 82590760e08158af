-- ===== src/Examples/Policies.antt =====
-- The theorems on settings, retry delays and freshness.
use formula1_dashboard.Common.{
  suc, ◌*◌, ◌/◌, ◌+◌, ◌≤◌, ◌<◌, ◌≡◌, ◌↔◌, refl, true, false, some, ok, arith, any, select,
}
use formula1_dashboard.Policy.Number.{
  Number, nonnegative, unit_fraction, microseconds, equal_jitter, round_div,
}
use formula1_dashboard.Policy.Settings.{defaults, validate}
use formula1_dashboard.Policy.Validation.{IsValid, validate-IsValid}
use formula1_dashboard.Policy.Retry.{
  DateTime, RetrySchedule, nominal_seconds, calculate_retry_schedule,
}
use formula1_dashboard.Policy.Delays.{calculate_retry_schedule_bounds}
use formula1_dashboard.Freshness.{
  session_eligibility, checkpoint_eligibility, correction_checkpoints,
}
use formula1_dashboard.Freshness.Archive.{HasDue, eligible-iff-HasDue, eligible_at_kept}
use formula1_dashboard.Examples.Data.{settings}

defaults_accepted : validate defaults ≡ ok settings
unfolding validate any
defaults_accepted = refl

settings-IsValid : IsValid settings
settings-IsValid = validate-IsValid defaults settings defaults_accepted

abbrev noon : DateTime
noon = record { instant = 43200000000; has_timezone = true }

abbrev third : Number
third = nonnegative (record { num = 1; pred_den = 2 })

-- The second attempt failed: 120 seconds, of which at least 60, and a third of the rest.
abbrev schedule : RetrySchedule
schedule = record {
  failed_attempt = 2;
  nominal_delay = 120000000;
  delay = 80000000;
  next_retry_at = 43280000000;
}

scheduled : calculate_retry_schedule noon 2 third settings ≡ ok schedule
unfolding calculate_retry_schedule nominal_seconds unit_fraction equal_jitter round_div
scheduled = refl

calculate_retry_schedule_bounds_example :
    (1 ≤ 2)
    × (2 < settings.max_attempts)
    × (schedule.nominal_delay ≡ microseconds (nominal_seconds 2 settings))
    × (schedule.nominal_delay ≤ microseconds settings.backoff_cap_seconds)
    × (schedule.delay ≤ schedule.nominal_delay)
    × (schedule.nominal_delay
          * settings.jitter_min_ratio.num
          / suc settings.jitter_min_ratio.pred_den
        ≤ schedule.delay)
    × (schedule.next_retry_at ≡ noon.instant + schedule.delay)
calculate_retry_schedule_bounds_example =
    calculate_retry_schedule_bounds noon 2 third settings schedule settings-IsValid scheduled

abbrev fetched : DateTime
fetched = record { instant = 8000000000; has_timezone = true }

eligible-iff-HasDue_example :
    ((session_eligibility 0 (some fetched) 90000000000 settings).eligible ≡ true)
    ↔ HasDue 8000000000 90000000000 (correction_checkpoints 0 settings)
eligible-iff-HasDue_example = eligible-iff-HasDue 0 90000000000 fetched settings

waits :
    ((session_eligibility 0 (some fetched) 9000000000 settings).eligible ≡ false)
    × ((session_eligibility 0 (some fetched) 9000000000 settings).eligible_at ≡ some 86400000000)
unfolding session_eligibility checkpoint_eligibility select
waits = (refl, refl)

eligible_at_kept_example :
    (session_eligibility 0 (some fetched) 90000000000 settings).eligible ≡ true
eligible_at_kept_example =
    eligible_at_kept 0 9000000000 90000000000 86400000000 (some fetched) settings waits.0 waits.1
      (omega arith)
