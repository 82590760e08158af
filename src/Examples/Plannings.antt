-- ===== src/Examples/Plannings.antt =====
-- The theorems on the planning of a season.
use formula1_dashboard.Common.{
  ◌+◌, ◌≤◌, ◌==◌, ◌≡◌, ◌↔◌, refl, false, true, Option, none, some, [], ◌∷◌, Outcome, ok, err, arith,
  if◌then◌else◌,
}
use formula1_dashboard.Freshness.{CoverageRefreshReason}
use formula1_dashboard.Store.{Store, fastf1_archive}
use formula1_dashboard.Orchestration.Steps.{Steps, plans, done, step}
use formula1_dashboard.Planning.Catalogue.{Season, Catalogue, PlanningError, coverage_changed}
use formula1_dashboard.Planning.Discovery.{persist_snapshot, covered_season}
use formula1_dashboard.Planning.Queue.{Plan, create_or_reuse_job}
use formula1_dashboard.Planning.Ensure.{World, Attempt, plan_once, ensure_season_backfill}
use formula1_dashboard.Planning.ActiveJobs.{OneActive, Steps-OneActive}
use formula1_dashboard.Planning.Attempts.{Overtaken, planning_gives_up}
use formula1_dashboard.Planning.Sources.{LeavesOthers, persist_snapshot-others}
use formula1_dashboard.Planning.Replanning.{Unchanged, planning_again}
use formula1_dashboard.Examples.Data.{settings}
use formula1_dashboard.Examples.Seasons.{
  schedule, no_seasons, no_jobs, nothing, planned_at, inputs, utc_year,
}

no_jobs-OneActive : OneActive no_jobs
no_jobs-OneActive = record { listed = λ id h. absurd (cc); single = λ year a b h. absurd (cc) }

abbrev empty_plan : Plan
empty_plan = record {
  season_year = 0;
  coverage_reason = CoverageRefreshReason.fresh;
  coverage_refreshed = false;
  coverage_checked_at = none;
  coverage_valid_until = none;
  job_id = none;
  job_status = none;
  job_created = false;
  eligible_session_ids = [];
  newly_queued_session_ids = [];
  deferred_future_events = [];
}

abbrev result_of : Outcome PlanningError (Option (Plan × World)) → Plan × World
result_of (ok (some result)) = result
result_of _ = (empty_plan, nothing)

-- The first planning persists the schedule and queues the race.
first : Plan × World
unfolding plan_once
first = result_of (plan_once utc_year settings 2024 inputs (some schedule) nothing)

first_planning : plan_once utc_year settings 2024 inputs (some schedule) nothing ≡ ok (some first)
unfolding first plan_once persist_snapshot create_or_reuse_job
first_planning = refl

queued_ids : first.0.newly_queued_session_ids ≡ 7 ∷ []
unfolding first plan_once persist_snapshot create_or_reuse_job
queued_ids = refl

one_planning : Steps settings no_jobs first.1.store
one_planning =
    step
      (plans utc_year 2024 inputs (some schedule) no_seasons first.1.catalogue first.0 (omega arith)
        first_planning)
      done

Steps-OneActive_example : OneActive first.1.store
Steps-OneActive_example = Steps-OneActive no_jobs-OneActive one_planning

-- Planned again at the same time, on the tables that the first planning left.
season_after : Season
season_after = covered_season 2024 planned_at (planned_at + 21600000000)

abbrev job_of : Store → Outcome PlanningError (Plan × Store) → Plan × Store
job_of db (ok result) = result
job_of db (err e) = (empty_plan, db)

once : Plan × Store
unfolding create_or_reuse_job season_after first plan_once persist_snapshot
once = job_of no_jobs (
    create_or_reuse_job settings inputs season_after CoverageRefreshReason.missing true
      first.1.catalogue no_jobs)

once_planning :
    create_or_reuse_job settings inputs season_after CoverageRefreshReason.missing true
      first.1.catalogue no_jobs
    ≡ ok once
unfolding once create_or_reuse_job season_after first plan_once persist_snapshot
once_planning = refl

once_ids : once.0.newly_queued_session_ids ≡ 7 ∷ []
unfolding once create_or_reuse_job season_after first plan_once persist_snapshot
once_ids = refl

twice : Plan × Store
unfolding once create_or_reuse_job season_after first plan_once persist_snapshot
twice = job_of no_jobs (
    create_or_reuse_job settings inputs season_after CoverageRefreshReason.fresh false
      first.1.catalogue once.1)

twice_planning :
    create_or_reuse_job settings inputs season_after CoverageRefreshReason.fresh false
      first.1.catalogue once.1
    ≡ ok twice
unfolding twice once create_or_reuse_job season_after first plan_once persist_snapshot
twice_planning = refl

planning_again_example : Unchanged once.0 twice.0 once.1 twice.1
planning_again_example =
    planning_again settings inputs inputs season_after CoverageRefreshReason.missing
      CoverageRefreshReason.fresh true false first.1.catalogue no_jobs once.1 twice.1 once.0 twice.0
      refl once_planning twice_planning

-- A catalogue with an event of the season before.
abbrev older : Catalogue
older = record no_seasons {
  events =
      record {
        id = 9;
        season_year = 2023;
        round_number = 1;
        official_name = none;
        event_name = "Older";
        country = none;
        location = none;
        event_format = none;
        starts_at = none;
        ends_at = none;
        last_discovered_at = none;
        source = fastf1_archive;
        updated_at = 0;
      }
      ∷ [];
}

abbrev catalogue_of : Outcome PlanningError Catalogue → Catalogue
catalogue_of (ok cat) = cat
catalogue_of (err e) = no_seasons

persisted : Catalogue
unfolding persist_snapshot
persisted = catalogue_of (persist_snapshot 5 5 50 schedule older)

persisting : persist_snapshot 5 5 50 schedule older ≡ ok persisted
unfolding persisted persist_snapshot
persisting = refl

persist_snapshot-others_example : LeavesOthers 2024 older persisted
persist_snapshot-others_example = persist_snapshot-others 5 5 50 schedule older persisted persisting

-- The check sees the coverage of the first planning, the transaction an empty catalogue.
abbrev overtaken : Attempt
overtaken = record {
  checked = record nothing {
    catalogue = record no_seasons {
      seasons = λ year. if year == 2024 then some (covered_season 2024 0 100) else none;
    };
  };
  checked_at = 50;
  load = λ _. none;
  found = nothing;
  inputs = inputs;
}

planning_gives_up_example :
    (ensure_season_backfill utc_year settings 2024 overtaken overtaken ≡ err coverage_changed) ↔ (
      (2018 ≤ 2024)
      × (2024 ≤ 32767)
      × Overtaken utc_year settings 2024 overtaken
      × Overtaken utc_year settings 2024 overtaken)
planning_gives_up_example = planning_gives_up utc_year settings 2024 overtaken overtaken

-- And both sides of it hold.
gave_up : ensure_season_backfill utc_year settings 2024 overtaken overtaken ≡ err coverage_changed
unfolding ensure_season_backfill
gave_up = refl
