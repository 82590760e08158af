-- ===== src/Policy/Delays.antt =====
-- What a computed retry schedule promises.
use native.Mathlib.Nat.{mul-le-mul_left, pow-le-pow_right}
use formula1_dashboard.Common.{
  ℕ, suc, ◌+◌, ◌-◌, ◌*◌, ◌/◌, ◌≤◌, ◌<◌, ◌≡◌, some, ok, arith, Option-cases, inl, inr,
}
use formula1_dashboard.Policy.Number.{Fraction, Number, unit_fraction, microseconds}
use formula1_dashboard.Policy.Bounds.{equal_jitter-le, le-equal_jitter}
use formula1_dashboard.Policy.Settings.{ValidSettings}
use formula1_dashboard.Policy.Validation.{IsValid}
use formula1_dashboard.Policy.Retry.{
  DateTime, RetrySchedule, nominal_seconds, calculate_retry_schedule,
}

unit_fraction-le : (x : Number) (q : Fraction) → unit_fraction x ≡ some q → q.num ≤ suc q.pred_den
unfolding unit_fraction
unit_fraction-le x q h = ground arith

nominal_seconds-le_cap :
    (attempt : ℕ) (s : ValidSettings) → nominal_seconds attempt s ≤ s.backoff_cap_seconds
unfolding nominal_seconds
nominal_seconds-le_cap attempt s = omega arith

-- A schedule that is computed for valid settings is for an attempt below the limit; its delay is at
-- most the nominal delay, at least the whole microseconds of the minimum ratio of it, and the retry
-- time is the clock plus that delay; the nominal delay is at most the cap.
pub calculate_retry_schedule_bounds :
    (now : DateTime) (attempt : ℕ) (jitter : Number) (s : ValidSettings) (r : RetrySchedule)
    → IsValid s
    → calculate_retry_schedule now attempt jitter s ≡ ok r
    → (1 ≤ attempt)
      × (attempt < s.max_attempts)
      × (r.nominal_delay ≡ microseconds (nominal_seconds attempt s))
      × (r.nominal_delay ≤ microseconds s.backoff_cap_seconds)
      × (r.delay ≤ r.nominal_delay)
      × (r.nominal_delay * s.jitter_min_ratio.num / suc s.jitter_min_ratio.pred_den ≤ r.delay)
      × (r.next_retry_at ≡ now.instant + r.delay)
unfolding calculate_retry_schedule
calculate_retry_schedule_bounds now attempt jitter s r v h =
    elim (Option-cases (unit_fraction jitter)) [
      | inl refused ↦ absurd (ground arith)
      | inr (q, passed) ↦ ground (
        arith,
        nominal_seconds-le_cap attempt s,
        unit_fraction-le jitter q passed,
        equal_jitter-le (nominal_seconds attempt s) s.jitter_min_ratio q,
        le-equal_jitter (nominal_seconds attempt s) s.jitter_min_ratio q,
      )
    ]

-- A later attempt never waits for a shorter nominal delay.
nominal_seconds_mono :
    (a b : ℕ) (s : ValidSettings) → IsValid s → a ≤ b → nominal_seconds a s ≤ nominal_seconds b s
unfolding nominal_seconds
nominal_seconds_mono a b s v h = omega (
  arith,
  mul-le-mul_left s.backoff_base_seconds
      (pow-le-pow_right v.positive.multiplier_pos {i = a - 1} {j = b - 1} (omega arith)),
)
