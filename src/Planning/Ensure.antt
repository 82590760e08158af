-- ===== src/Planning/Ensure.antt =====
-- `ensure_season_backfill`, `_coverage_refresh_required` and the validations. What other sessions do
-- between the transactions is an argument: each transaction is given the tables that it finds.
use formula1_dashboard.Common.{
  ℕ, Bool, true, false, Option, none, some, List, [], ◌∷◌, Outcome, ok, err, ◌>>=◌, ◌>>◌, guard,
  or_raise, leb, ◌==◌, ◌&&◌, if◌then◌else◌,
}
use formula1_dashboard.Policy.Settings.{ValidSettings}
use formula1_dashboard.Freshness.{SeasonCoverageEligibility, evaluate_season_coverage}
use formula1_dashboard.Store.{Store}
use formula1_dashboard.Planning.Catalogue.{
  Season, Catalogue, NormalizedSeasonSchedule, PlanningError, season_year_range, snapshot_mismatch,
  coverage_changed, load_failed, policy, identity_of,
}
use formula1_dashboard.Planning.Discovery.{persist_snapshot, covered_season}
use formula1_dashboard.Planning.Eligibility.{aware, aware_option}
use formula1_dashboard.Planning.Queue.{Plan, PlanningInputs, create_or_reuse_job}

-- All tables.
pub record World : Type 0 where
  pub catalogue : Catalogue
  pub store : Store

-- `MINIMUM_ARCHIVE_YEAR`.
abbrev minimum_archive_year : ℕ
minimum_archive_year = 2018

-- `_validate_season_year`.
unfoldable pub validate_season_year : ℕ → Outcome PlanningError (Unit {0})
validate_season_year year =
    guard (leb minimum_archive_year year && leb year 32767) season_year_range

-- `_validate_loaded_schedule`.
unfoldable pub validate_loaded_schedule :
    ℕ → NormalizedSeasonSchedule → Outcome PlanningError (Unit {0})
validate_loaded_schedule year schedule = guard (schedule.season_year == year) snapshot_mismatch

abbrev valid_until_of : Option Season → Option ℕ
valid_until_of none = none
valid_until_of (some season) = season.coverage_valid_until

-- What one attempt finds: the tables and the clock of the check, the schedule that the loader returns
-- or none where it raises, and the tables and the inputs of the transaction.
pub record Attempt : Type 0 where
  pub checked : World
  pub checked_at : ℕ
  pub load : ℕ → Option NormalizedSeasonSchedule
  pub found : World
  pub inputs : PlanningInputs

-- The job is planned on the season's row as the transaction sees it.
unfoldable pub plan_current :
    ValidSettings
    → PlanningInputs
    → SeasonCoverageEligibility
    → Option Season
    → World
    → Outcome PlanningError (Option (Plan × World))
unfolding create_or_reuse_job
plan_current s inputs coverage none world = ok none
plan_current s inputs coverage (some season) world = do
  planned ← create_or_reuse_job s inputs season coverage.reason false world.catalogue world.store
  ok (some (planned.0, record world { store = planned.1 }))

-- The schedule is persisted first, and what the tables say of the sessions follows it.
unfoldable pub plan_refreshed :
    ValidSettings
    → PlanningInputs
    → SeasonCoverageEligibility
    → NormalizedSeasonSchedule
    → World
    → Outcome PlanningError (Option (Plan × World))
unfolding persist_snapshot identity_of create_or_reuse_job
plan_refreshed s inputs coverage schedule world = do
  next ←
      persist_snapshot inputs.transaction_at inputs.database_now
        coverage.successful_refresh_valid_until schedule world.catalogue
  planned ←
      create_or_reuse_job s inputs
        (covered_season schedule.season_year inputs.database_now
          coverage.successful_refresh_valid_until)
        coverage.reason true next (record world.store { sessions = identity_of next })
  ok (some (planned.0, record { catalogue = next; store = planned.1 }))

-- The parameter gives the calendar year of an instant.
module _ (utc_year : ℕ → ℕ) where
  -- The coverage of a season, the policy's errors passed on.
  unfoldable pub coverage_of :
      ValidSettings → ℕ → ℕ → Option Season → Outcome PlanningError SeasonCoverageEligibility
  unfolding evaluate_season_coverage
  coverage_of s year now season =
      elim (evaluate_season_coverage utc_year year (aware_option (valid_until_of season))
        (aware now) s) [ err e ↦ err (policy e) | ok coverage ↦ ok coverage ]

  -- `_coverage_refresh_required`.
  unfoldable pub coverage_refresh_required :
      ValidSettings → ℕ → ℕ → World → Outcome PlanningError Bool
  unfolding coverage_of
  coverage_refresh_required s year now world = do
    coverage ← coverage_of s year now (world.catalogue.seasons year)
    ok coverage.refresh_required

  -- The transaction of one attempt; none for `continue`. The `assert season is not None` always holds:
  -- without a row the coverage is missing, and a refresh is required.
  unfoldable pub plan_once :
      ValidSettings
      → ℕ
      → PlanningInputs
      → Option NormalizedSeasonSchedule
      → World
      → Outcome PlanningError (Option (Plan × World))
  unfolding coverage_of plan_current plan_refreshed
  plan_once s year inputs loaded world = do
    let season = world.catalogue.seasons year
    coverage ← coverage_of s year inputs.database_now season
    if coverage.refresh_required
        then (elim loaded [
          | none ↦ ok none
          | some schedule ↦ plan_refreshed s inputs coverage schedule world
        ])
        else plan_current s inputs coverage season world

  -- The schedule that an attempt goes on with.
  unfoldable pub load_schedule :
      ValidSettings
      → ℕ
      → Attempt
      → Option NormalizedSeasonSchedule
      → Outcome PlanningError (Option NormalizedSeasonSchedule)
  unfolding coverage_refresh_required validate_loaded_schedule
  load_schedule s year a (some schedule) = ok (some schedule)
  load_schedule s year a none = do
    required ← coverage_refresh_required s year a.checked_at a.checked
    if required
        then (do
          schedule ← or_raise load_failed (a.load year)
          validate_loaded_schedule year schedule
          ok (some schedule))
        else ok none

  -- The loop over the attempts, with the schedule that was loaded.
  unfoldable pub plan_attempts :
      ValidSettings
      → ℕ
      → Option NormalizedSeasonSchedule
      → List Attempt
      → Outcome PlanningError (Plan × World)
  unfolding load_schedule plan_once
  plan_attempts s year loaded [] = err coverage_changed
  plan_attempts s year loaded (a ∷ attempts) = load_schedule s year a loaded >>= λ schedule.
      plan_once s year a.inputs schedule a.found >>= λ planned. elim planned [
        | none ↦ plan_attempts s year schedule attempts
        | some result ↦ ok result
      ]

  unfoldable pub ensure_season_backfill :
      ValidSettings → ℕ → Attempt → Attempt → Outcome PlanningError (Plan × World)
  unfolding validate_season_year plan_attempts
  ensure_season_backfill s year first second = do
    validate_season_year year
    plan_attempts s year none (first ∷ second ∷ [])
