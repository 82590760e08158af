-- ===== src/Policy/Settings.antt =====
-- `BackfillRuntimeSettings` of backend/app/ingestion/runtime_policy.py: the record, its defaults,
-- and `__post_init__`. The record holds integers and a number before validation, and positive
-- integers and a fraction after it; validation changes no value.
use formula1_dashboard.Common.{
  ℕ, zero, suc, String, Bool, true, false, ◌&&◌, ◌||◌, not, List, [], ◌∷◌, Outcome, ok, err, ◌>>=◌,
  ◌>>◌, guard, or_raise, ltb, leb, ◌==◌, if◌then◌else◌, any, ℤ, pos, negsuc,
}
use formula1_dashboard.Policy.Number.{Fraction, Number, nonnegative, positive_unit_fraction}

pub record Settings (I N : Type 0) : Type 0 where
  pub worker_poll_interval_seconds : I
  pub archive_session_min_interval_seconds : I
  pub fastf1_rate_limit_cooldown_seconds : I
  pub fastf1_request_window_seconds : I
  pub fastf1_request_library_limit : I
  pub fastf1_request_operational_ceiling : I
  pub fastf1_request_warning_threshold : I
  pub max_attempts : I
  pub backoff_base_seconds : I
  pub backoff_multiplier : I
  pub backoff_cap_seconds : I
  pub jitter_min_ratio : N
  pub heartbeat_interval_seconds : I
  pub lease_timeout_seconds : I
  pub recovery_scan_interval_seconds : I
  pub automatic_current_season_planning_enabled : Bool
  pub automatic_current_season_planning_interval_seconds : I
  pub current_season_coverage_ttl_seconds : I
  pub historical_season_coverage_ttl_seconds : I
  pub archive_availability_grace_seconds : I
  pub archive_correction_checkpoints_seconds : List I

-- What the constructor is given, and what it lets through.
abbrev pub RawSettings : Type 0
RawSettings = Settings ℤ Number

abbrev pub ValidSettings : Type 0
ValidSettings = Settings ℕ Fraction

abbrev pub defaults : RawSettings
defaults = record {
  worker_poll_interval_seconds = pos 2;
  archive_session_min_interval_seconds = pos 1;
  fastf1_rate_limit_cooldown_seconds = pos 3600;
  fastf1_request_window_seconds = pos 3600;
  fastf1_request_library_limit = pos 500;
  fastf1_request_operational_ceiling = pos 450;
  fastf1_request_warning_threshold = pos 400;
  max_attempts = pos 4;
  backoff_base_seconds = pos 60;
  backoff_multiplier = pos 2;
  backoff_cap_seconds = pos 900;
  jitter_min_ratio = nonnegative (record { num = 1; pred_den = 1 });
  heartbeat_interval_seconds = pos 30;
  lease_timeout_seconds = pos 300;
  recovery_scan_interval_seconds = pos 30;
  automatic_current_season_planning_enabled = true;
  automatic_current_season_planning_interval_seconds = pos 900;
  current_season_coverage_ttl_seconds = pos 21600;
  historical_season_coverage_ttl_seconds = pos 2592000;
  archive_availability_grace_seconds = pos 7200;
  archive_correction_checkpoints_seconds = pos 86400 ∷ pos 604800 ∷ [];
}

-- `BackfillRuntimePolicyError`, by what its message says, and the `OverflowError` of dates and durations.
pub data PolicyError : Type 0 where
  not_positive : String → PolicyError
  cap_below_base : PolicyError
  cooldown_not_above_interval : PolicyError
  thresholds_not_increasing : PolicyError
  jitter_min_ratio_range : PolicyError
  lease_not_above_heartbeat : PolicyError
  scan_above_lease : PolicyError
  planning_interval_range : PolicyError
  checkpoints_not_increasing : PolicyError
  not_an_integer : String → PolicyError
  not_a_number : String → PolicyError
  not_a_boolean : String → PolicyError
  not_an_integer_list : String → PolicyError
  attempt_not_positive : PolicyError
  retry_budget_exhausted : PolicyError
  jitter_fraction_range : PolicyError
  timezone_missing : String → PolicyError
  season_year_range : PolicyError
  in_the_future : String → PolicyError
  overflow : PolicyError

-- The test `value < 1` of `_positive_integer`; a value that is no integer, or a truth value, is no
-- argument here.
unfoldable pub positive_integer : String → ℤ → Outcome PolicyError ℕ
positive_integer field (pos zero) = err (not_positive field)
positive_integer field (pos (suc n)) = ok (suc n)
positive_integer field (negsuc n) = err (not_positive field)

-- The integers of a correction checkpoint tuple; a negative one fails the test on the grace below,
-- and is 0 here.
unfoldable pub checkpoint_seconds : List ℤ → List ℕ
checkpoint_seconds [] = []
checkpoint_seconds (pos n ∷ xs) = n ∷ checkpoint_seconds xs
checkpoint_seconds (negsuc n ∷ xs) = 0 ∷ checkpoint_seconds xs

-- `sorted(set(xs))`, by insertion.
unfoldable pub insert_new : ℕ → List ℕ → List ℕ
insert_new x [] = x ∷ []
insert_new x (y ∷ ys) =
    let rest = insert_new x ys in
    if ltb x y then x ∷ y ∷ ys else if x == y then y ∷ ys else y ∷ rest

unfoldable pub sorted_set : List ℕ → List ℕ
unfolding insert_new
sorted_set [] = []
sorted_set (x ∷ xs) = insert_new x (sorted_set xs)

unfoldable pub same_list : List ℕ → List ℕ → Bool
same_list [] [] = true
same_list (x ∷ xs) (y ∷ ys) = x == y && same_list xs ys
same_list _ _ = false

-- The last test of `__post_init__`.
unfoldable pub validate_checkpoints : ℕ → List ℤ → Outcome PolicyError (List ℕ)
unfolding checkpoint_seconds sorted_set same_list
validate_checkpoints grace [] = err checkpoints_not_increasing
validate_checkpoints grace (z ∷ zs) =
    let seconds = checkpoint_seconds (z ∷ zs) in
    if any (λ value. leb value grace) seconds || not (same_list (sorted_set seconds) seconds)
    then err checkpoints_not_increasing
    else ok seconds

-- The settings with the jitter ratio and the checkpoints as they were found to be valid.
abbrev with_fraction : Settings ℕ Number → Fraction → List ℕ → ValidSettings
with_fraction s ratio seconds = record {
  worker_poll_interval_seconds = s.worker_poll_interval_seconds;
  archive_session_min_interval_seconds = s.archive_session_min_interval_seconds;
  fastf1_rate_limit_cooldown_seconds = s.fastf1_rate_limit_cooldown_seconds;
  fastf1_request_window_seconds = s.fastf1_request_window_seconds;
  fastf1_request_library_limit = s.fastf1_request_library_limit;
  fastf1_request_operational_ceiling = s.fastf1_request_operational_ceiling;
  fastf1_request_warning_threshold = s.fastf1_request_warning_threshold;
  max_attempts = s.max_attempts;
  backoff_base_seconds = s.backoff_base_seconds;
  backoff_multiplier = s.backoff_multiplier;
  backoff_cap_seconds = s.backoff_cap_seconds;
  jitter_min_ratio = ratio;
  heartbeat_interval_seconds = s.heartbeat_interval_seconds;
  lease_timeout_seconds = s.lease_timeout_seconds;
  recovery_scan_interval_seconds = s.recovery_scan_interval_seconds;
  automatic_current_season_planning_enabled = s.automatic_current_season_planning_enabled;
  automatic_current_season_planning_interval_seconds =
      s.automatic_current_season_planning_interval_seconds;
  current_season_coverage_ttl_seconds = s.current_season_coverage_ttl_seconds;
  historical_season_coverage_ttl_seconds = s.historical_season_coverage_ttl_seconds;
  archive_availability_grace_seconds = s.archive_availability_grace_seconds;
  archive_correction_checkpoints_seconds = seconds;
}

-- The tests of `__post_init__` that compare two settings, in the source's order.
unfoldable pub validate_relations : Settings ℕ Number → List ℤ → Outcome PolicyError ValidSettings
unfolding validate_checkpoints positive_unit_fraction
validate_relations s checkpoints = do
  guard (leb s.backoff_base_seconds s.backoff_cap_seconds) cap_below_base
  guard (ltb s.archive_session_min_interval_seconds s.fastf1_rate_limit_cooldown_seconds)
      cooldown_not_above_interval
  guard
      (ltb s.fastf1_request_warning_threshold s.fastf1_request_operational_ceiling
        && ltb s.fastf1_request_operational_ceiling s.fastf1_request_library_limit)
      thresholds_not_increasing
  ratio ← or_raise jitter_min_ratio_range (positive_unit_fraction s.jitter_min_ratio)
  guard (ltb s.heartbeat_interval_seconds s.lease_timeout_seconds) lease_not_above_heartbeat
  guard (leb s.recovery_scan_interval_seconds s.lease_timeout_seconds) scan_above_lease
  guard
      (leb 60 s.automatic_current_season_planning_interval_seconds
        && leb s.automatic_current_season_planning_interval_seconds 21600)
      planning_interval_range
  seconds ← validate_checkpoints s.archive_availability_grace_seconds checkpoints
  ok (with_fraction s ratio seconds)

-- The tests of `__post_init__` on single integers, in the source's order.
unfoldable pub validate_integers : RawSettings → Outcome PolicyError (Settings ℕ Number)
unfolding positive_integer
validate_integers s = do
  worker_poll_interval_seconds ←
      positive_integer "worker_poll_interval_seconds" s.worker_poll_interval_seconds
  archive_session_min_interval_seconds ←
      positive_integer "archive_session_min_interval_seconds" s.archive_session_min_interval_seconds
  fastf1_rate_limit_cooldown_seconds ←
      positive_integer "fastf1_rate_limit_cooldown_seconds" s.fastf1_rate_limit_cooldown_seconds
  fastf1_request_window_seconds ←
      positive_integer "fastf1_request_window_seconds" s.fastf1_request_window_seconds
  fastf1_request_library_limit ←
      positive_integer "fastf1_request_library_limit" s.fastf1_request_library_limit
  fastf1_request_operational_ceiling ←
      positive_integer "fastf1_request_operational_ceiling" s.fastf1_request_operational_ceiling
  fastf1_request_warning_threshold ←
      positive_integer "fastf1_request_warning_threshold" s.fastf1_request_warning_threshold
  max_attempts ← positive_integer "max_attempts" s.max_attempts
  backoff_base_seconds ← positive_integer "backoff_base_seconds" s.backoff_base_seconds
  backoff_multiplier ← positive_integer "backoff_multiplier" s.backoff_multiplier
  backoff_cap_seconds ← positive_integer "backoff_cap_seconds" s.backoff_cap_seconds
  heartbeat_interval_seconds ←
      positive_integer "heartbeat_interval_seconds" s.heartbeat_interval_seconds
  lease_timeout_seconds ← positive_integer "lease_timeout_seconds" s.lease_timeout_seconds
  recovery_scan_interval_seconds ←
      positive_integer "recovery_scan_interval_seconds" s.recovery_scan_interval_seconds
  automatic_current_season_planning_interval_seconds ←
      positive_integer "automatic_current_season_planning_interval_seconds"
        s.automatic_current_season_planning_interval_seconds
  current_season_coverage_ttl_seconds ←
      positive_integer "current_season_coverage_ttl_seconds" s.current_season_coverage_ttl_seconds
  historical_season_coverage_ttl_seconds ←
      positive_integer "historical_season_coverage_ttl_seconds"
        s.historical_season_coverage_ttl_seconds
  archive_availability_grace_seconds ←
      positive_integer "archive_availability_grace_seconds" s.archive_availability_grace_seconds
  ok (record {
    worker_poll_interval_seconds = worker_poll_interval_seconds;
    archive_session_min_interval_seconds = archive_session_min_interval_seconds;
    fastf1_rate_limit_cooldown_seconds = fastf1_rate_limit_cooldown_seconds;
    fastf1_request_window_seconds = fastf1_request_window_seconds;
    fastf1_request_library_limit = fastf1_request_library_limit;
    fastf1_request_operational_ceiling = fastf1_request_operational_ceiling;
    fastf1_request_warning_threshold = fastf1_request_warning_threshold;
    max_attempts = max_attempts;
    backoff_base_seconds = backoff_base_seconds;
    backoff_multiplier = backoff_multiplier;
    backoff_cap_seconds = backoff_cap_seconds;
    jitter_min_ratio = s.jitter_min_ratio;
    heartbeat_interval_seconds = heartbeat_interval_seconds;
    lease_timeout_seconds = lease_timeout_seconds;
    recovery_scan_interval_seconds = recovery_scan_interval_seconds;
    automatic_current_season_planning_enabled = s.automatic_current_season_planning_enabled;
    automatic_current_season_planning_interval_seconds =
        automatic_current_season_planning_interval_seconds;
    current_season_coverage_ttl_seconds = current_season_coverage_ttl_seconds;
    historical_season_coverage_ttl_seconds = historical_season_coverage_ttl_seconds;
    archive_availability_grace_seconds = archive_availability_grace_seconds;
    archive_correction_checkpoints_seconds = [];
  })

-- `__post_init__`.
unfoldable pub validate : RawSettings → Outcome PolicyError ValidSettings
unfolding validate_integers validate_relations
validate s = do
  integers ← validate_integers s
  validate_relations integers s.archive_correction_checkpoints_seconds
