-- ===== src/Policy/Validation.antt =====
-- What `__post_init__` lets through.
use formula1_dashboard.Common.{ℕ, suc, ◌≤◌, ◌<◌, ◌≡◌, List, ok, arith, >>=-eq-ok, ℤ, String}
use formula1_dashboard.Policy.Number.{Number}
use formula1_dashboard.Policy.Checkpoints.{Ascending, IsAfter, checkpoints_sound}
use formula1_dashboard.Policy.Settings.{
  Settings, RawSettings, ValidSettings, positive_integer, validate, validate_integers,
  validate_relations,
}

-- What `__post_init__` has checked when its tests on single integers are done.
pub record IsPositive {N : Type 0} (s : Settings ℕ N) : Type 0 where
  pub poll_pos : 0 < s.worker_poll_interval_seconds
  pub min_interval_pos : 0 < s.archive_session_min_interval_seconds
  pub window_pos : 0 < s.fastf1_request_window_seconds
  pub warning_pos : 0 < s.fastf1_request_warning_threshold
  pub attempts_pos : 0 < s.max_attempts
  pub base_pos : 0 < s.backoff_base_seconds
  pub multiplier_pos : 0 < s.backoff_multiplier
  pub heartbeat_pos : 0 < s.heartbeat_interval_seconds
  pub scan_pos : 0 < s.recovery_scan_interval_seconds
  pub current_ttl_pos : 0 < s.current_season_coverage_ttl_seconds
  pub historical_ttl_pos : 0 < s.historical_season_coverage_ttl_seconds
  pub grace_pos : 0 < s.archive_availability_grace_seconds

-- The limits that `__post_init__` tests.
pub record IsValid (s : ValidSettings) : Type 0 where
  pub positive : IsPositive s
  pub base_le_cap : s.backoff_base_seconds ≤ s.backoff_cap_seconds
  pub interval_lt_cooldown :
      s.archive_session_min_interval_seconds < s.fastf1_rate_limit_cooldown_seconds
  pub warning_lt_ceiling : s.fastf1_request_warning_threshold < s.fastf1_request_operational_ceiling
  pub ceiling_lt_limit : s.fastf1_request_operational_ceiling < s.fastf1_request_library_limit
  pub ratio_pos : 0 < s.jitter_min_ratio.num
  pub ratio_le_one : s.jitter_min_ratio.num ≤ suc s.jitter_min_ratio.pred_den
  pub heartbeat_lt_lease : s.heartbeat_interval_seconds < s.lease_timeout_seconds
  pub scan_le_lease : s.recovery_scan_interval_seconds ≤ s.lease_timeout_seconds
  pub checkpoints_ascending : Ascending s.archive_correction_checkpoints_seconds
  pub checkpoints_after_grace :
      IsAfter s.archive_availability_grace_seconds s.archive_correction_checkpoints_seconds
  pub planning_range_low : 60 ≤ s.automatic_current_season_planning_interval_seconds
  pub planning_range_high : s.automatic_current_season_planning_interval_seconds ≤ 21600

positive_integer-pos : (f : String) (z : ℤ) (n : ℕ) → positive_integer f z ≡ ok n → 0 < n
unfolding positive_integer
positive_integer-pos f z n h = ground arith

validate_integers-IsPositive :
    (raw : RawSettings) (s : Settings ℕ Number) → validate_integers raw ≡ ok s → IsPositive s
unfolding validate_integers
validate_integers-IsPositive raw s h = ground arith

validate_relations-IsValid :
    (s : Settings ℕ Number) (zs : List ℤ) (t : ValidSettings)
    → validate_relations s zs ≡ ok t
    → IsPositive s
    → IsValid t
unfolding validate_relations
validate_relations-IsValid s zs t h p = ground (
  arith,
  checkpoints_sound s.archive_availability_grace_seconds zs
      t.archive_correction_checkpoints_seconds,
)

-- Settings that `__post_init__` accepts have every limit of `IsValid`: each single integer is
-- positive, each pair of settings is in its order, the jitter ratio is above 0 and at most 1, and
-- the correction checkpoints ascend strictly and lie after the availability grace.
pub validate-IsValid : (raw : RawSettings) (s : ValidSettings) → validate raw ≡ ok s → IsValid s
unfolding validate
validate-IsValid raw s h =
    let (integers, first, second) =
      >>=-eq-ok (validate_integers raw)
        (λ i. validate_relations i raw.archive_correction_checkpoints_seconds) h in
    validate_relations-IsValid integers raw.archive_correction_checkpoints_seconds s second
      (validate_integers-IsPositive raw integers first)
