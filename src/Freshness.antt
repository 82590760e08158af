-- ===== src/Freshness.antt =====
-- backend/app/ingestion/freshness_policy.py. An instant is a number of microseconds from a fixed
-- origin; `utc_year` gives the calendar year of an instant.
pub mod Archive
use formula1_dashboard.Common.{
  ℕ, ◌+◌, Bool, true, false, Option, none, some, List, [], ◌∷◌, map, Outcome, ok, err, ◌>>=◌, ◌>>◌,
  guard, ltb, leb, ◌==◌, if◌then◌else◌, select, not,
}
use formula1_dashboard.Policy.Number.{microseconds}
use formula1_dashboard.Policy.Settings.{
  ValidSettings, PolicyError, timezone_missing, season_year_range, in_the_future,
}
use formula1_dashboard.Policy.Retry.{DateTime}

pub data CoverageRefreshReason : Type 0 where
  fresh missing stale : CoverageRefreshReason

pub data ArchiveEligibilityReason : Type 0 where
  schedule_end_missing availability_grace initial_archive : ArchiveEligibilityReason
  checkpoint_pending correction_checkpoint stable : ArchiveEligibilityReason

pub record SeasonCoverageEligibility : Type 0 where
  pub season_year : ℕ
  pub is_current_season : Bool
  pub refresh_required : Bool
  pub reason : CoverageRefreshReason
  pub ttl : ℕ
  pub successful_refresh_valid_until : ℕ

pub record ArchiveIngestionEligibility : Type 0 where
  pub eligible : Bool
  pub reason : ArchiveEligibilityReason
  pub eligible_at : Option ℕ
  pub correction_checkpoint_at : Option ℕ

-- `_timezone_aware`, of an optional value too.
unfoldable pub timezone_aware : Option DateTime → PolicyError → Outcome PolicyError (Unit {0})
timezone_aware none e = ok tt
timezone_aware (some d) e = guard d.has_timezone e

-- `_not_in_future`.
unfoldable pub not_in_future : Option DateTime → ℕ → PolicyError → Outcome PolicyError (Unit {0})
not_in_future none now e = ok tt
not_in_future (some d) now e = guard (leb d.instant now) e

-- The refresh that is required, and why.
unfoldable pub coverage_reason : Option DateTime → ℕ → CoverageRefreshReason
coverage_reason none now = missing
coverage_reason (some valid_until) now = if leb valid_until.instant now then stale else fresh

unfoldable pub refresh_required_for : CoverageRefreshReason → Bool
refresh_required_for fresh = false
refresh_required_for missing = true
refresh_required_for stale = true

module _ (utc_year : ℕ → ℕ) where
  unfoldable pub evaluate_season_coverage :
      ℕ → Option DateTime → DateTime → ValidSettings → Outcome PolicyError SeasonCoverageEligibility
  unfolding timezone_aware coverage_reason refresh_required_for
  evaluate_season_coverage season_year coverage_valid_until database_now settings = do
    guard (leb 1950 season_year) season_year_range
    guard database_now.has_timezone (timezone_missing "database_now")
    timezone_aware coverage_valid_until (timezone_missing "coverage_valid_until")
    let current = season_year == utc_year database_now.instant
    let ttl = microseconds (
        if current
        then settings.current_season_coverage_ttl_seconds
        else settings.historical_season_coverage_ttl_seconds)
    let reason = coverage_reason coverage_valid_until database_now.instant
    ok (record {
      season_year = season_year;
      is_current_season = current;
      refresh_required = refresh_required_for reason;
      reason = reason;
      ttl = ttl;
      successful_refresh_valid_until = database_now.instant + ttl;
    })

-- `xs[-1]` of a list that has `x` before `xs`.
unfoldable pub last_of : ℕ → List ℕ → ℕ
last_of x [] = x
last_of x (y ∷ ys) = last_of y ys

-- The three outcomes over the checkpoints that are due and those that are not satisfied.
unfoldable pub checkpoint_eligibility : List ℕ → List ℕ → ArchiveIngestionEligibility
unfolding last_of
checkpoint_eligibility (d ∷ due) unsatisfied = record {
  eligible = true;
  reason = correction_checkpoint;
  eligible_at = some (last_of d due);
  correction_checkpoint_at = some (last_of d due);
}
checkpoint_eligibility [] (u ∷ unsatisfied) = record {
  eligible = false;
  reason = checkpoint_pending;
  eligible_at = some u;
  correction_checkpoint_at = some u;
}
checkpoint_eligibility [] [] = record {
  eligible = false;
  reason = stable;
  eligible_at = none;
  correction_checkpoint_at = none;
}

-- `scheduled_end_at + offset` for each checkpoint of the settings.
unfoldable pub correction_checkpoints : ℕ → ValidSettings → List ℕ
correction_checkpoints end settings =
    map (λ offset. end + microseconds offset) settings.archive_correction_checkpoints_seconds

-- The eligibility of a session that has a scheduled end, once its arguments are checked.
unfoldable pub session_eligibility :
    ℕ → Option DateTime → ℕ → ValidSettings → ArchiveIngestionEligibility
unfolding checkpoint_eligibility correction_checkpoints
session_eligibility end none now settings =
    let at = end + microseconds settings.archive_availability_grace_seconds in
    if ltb now at
    then record {
      eligible = false;
      reason = availability_grace;
      eligible_at = some at;
      correction_checkpoint_at = none;
    }
    else record {
      eligible = true;
      reason = initial_archive;
      eligible_at = some at;
      correction_checkpoint_at = none;
    }
session_eligibility end (some completed_at) now settings =
    let unsatisfied =
      select (λ checkpoint. ltb completed_at.instant checkpoint)
        (correction_checkpoints end settings) in
    checkpoint_eligibility (select (λ checkpoint. leb checkpoint now) unsatisfied) unsatisfied

unfoldable pub evaluate_archive_ingestion :
    Option DateTime
    → Option DateTime
    → DateTime
    → ValidSettings
    → Outcome PolicyError ArchiveIngestionEligibility
unfolding timezone_aware not_in_future session_eligibility
evaluate_archive_ingestion none completed_at database_now settings = do
  guard database_now.has_timezone (timezone_missing "database_now")
  timezone_aware completed_at (timezone_missing "completed_at")
  not_in_future completed_at database_now.instant (in_the_future "completed_at")
  ok (record {
    eligible = false;
    reason = schedule_end_missing;
    eligible_at = none;
    correction_checkpoint_at = none;
  })
evaluate_archive_ingestion (some scheduled_end_at) completed_at database_now settings = do
  guard database_now.has_timezone (timezone_missing "database_now")
  guard scheduled_end_at.has_timezone (timezone_missing "scheduled_end_at")
  timezone_aware completed_at (timezone_missing "completed_at")
  not_in_future completed_at database_now.instant (in_the_future "completed_at")
  ok (session_eligibility scheduled_end_at.instant completed_at database_now.instant settings)
