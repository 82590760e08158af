-- ===== src/Planning/Writes.antt =====
-- What a planning transaction does to the tables of the jobs.
use formula1_dashboard.Common.{
  ℕ, ◌<◌, ◌≡◌, ◌∙◌, sym, refl, not, ◌&&◌, Bool, true, false, Option, none, some, List, [], ◌∷◌, ok,
  arith, is_none, Outcome-cases, Bool-cases, Option-cases, inl, inr,
}
use formula1_dashboard.Policy.Settings.{ValidSettings}
use formula1_dashboard.Freshness.{CoverageRefreshReason, SeasonCoverageEligibility}
use formula1_dashboard.Store.{Store, Job}
use formula1_dashboard.Orchestration.Invariant.{Inv}
use formula1_dashboard.Planning.Catalogue.{Season, Catalogue, NormalizedSeasonSchedule, identity_of}
use formula1_dashboard.Planning.Discovery.{persist_snapshot, covered_season}
use formula1_dashboard.Planning.Queue.{
  id_of, Plan, PlanningInputs, queue_sessions, reuse_or_create, create_or_reuse_job,
}
use formula1_dashboard.Planning.Ensure.{World, plan_current, plan_refreshed, plan_once, coverage_of}
use formula1_dashboard.Planning.Eligibility.{Eligible, active_job, eligible_rows, current_sessions}
use formula1_dashboard.Planning.Added.{Queued, Inv-Queued, queue_sessions-Queued}

-- The tables that no choice of a job touches.
record SameRows (db db' : Store) : Type 0 where
  rows : db'.job_sessions ≡ db.job_sessions
  ingestions : db'.ingestions ≡ db.ingestions
  gate : db'.gate ≡ db.gate

reuse_or_create-SameRows :
    (t id year : ℕ) (reason : CoverageRefreshReason) (o o' : Option Job) (rows : List Eligible)
    (db db' : Store)
    → reuse_or_create t id year reason o rows db ≡ ok (o', db')
    → SameRows db db'
unfolding reuse_or_create
reuse_or_create-SameRows t id year reason (some job) o' rows db db' h = record {
  rows = ground arith;
  ingestions = ground arith;
  gate = ground arith;
}
reuse_or_create-SameRows t id year reason none o' [] db db' h = record {
  rows = ground arith;
  ingestions = ground arith;
  gate = ground arith;
}
reuse_or_create-SameRows t id year reason none o' (row ∷ rows) db db' h = record {
  rows = ground arith;
  ingestions = ground arith;
  gate = ground arith;
}

Queued-SameRows : (db mid db' : Store) → SameRows db mid → Queued mid db' → Queued db db'
Queued-SameRows db mid db' same q = record {
  queued_at = q.queued_at;
  job = q.job;
  ids = q.ids;
  added = rw (sym same.rows) q.added;
  ingestions = q.ingestions ∙ same.ingestions;
  gate = q.gate ∙ same.gate;
}

-- The parts of a planning that ended well.
pub record Planned (s : ValidSettings) (inputs : PlanningInputs) (season : Season)
    (reason : CoverageRefreshReason) (cat : Catalogue) (db : Store) (p : Plan) (db' : Store)
    : Type 0 where
  pub rows : List Eligible
  pub placed : Option Job
  pub mid : Store
  pub selected :
      eligible_rows s inputs.database_now
        (active_job season.year db.jobs db.job_ids)
        db.ingestions
        (current_sessions season cat.events cat.sessions)
      ≡ ok rows
  pub chosen :
      reuse_or_create inputs.transaction_at inputs.new_job_id season.year reason
        (active_job season.year db.jobs db.job_ids)
        rows
        db
      ≡ ok (placed, mid)
  pub job_id : p.job_id ≡ id_of placed
  pub created :
      p.job_created ≡ (is_none (active_job season.year db.jobs db.job_ids) && not (is_none placed))
  pub queued :
      queue_sessions inputs.transaction_at placed rows mid ≡ ok (p.newly_queued_session_ids, db')

pub create_or_reuse_job-Planned :
    (s : ValidSettings) (inputs : PlanningInputs) (season : Season) (reason : CoverageRefreshReason)
    (refreshed : Bool) (cat : Catalogue) (db : Store) (p : Plan) (db' : Store)
    → create_or_reuse_job s inputs season reason refreshed cat db ≡ ok (p, db')
    → Planned s inputs season reason cat db p db'
unfolding create_or_reuse_job
create_or_reuse_job-Planned s inputs season reason refreshed cat db p db' h =
    let active = active_job season.year db.jobs db.job_ids in
    elim (Outcome-cases (
      eligible_rows s inputs.database_now active db.ingestions
        (current_sessions season cat.events cat.sessions))) [
          | inr bad ↦ absurd (ground arith)
          | inl (rows, e) ↦
              elim (Outcome-cases (
                reuse_or_create inputs.transaction_at inputs.new_job_id season.year reason active
                  rows db)) [
                    | inr bad ↦ absurd (ground arith)
                    | inl ((placed, mid), e') ↦
                        elim (Outcome-cases
                          (queue_sessions inputs.transaction_at placed rows mid)) [
                            | inr bad ↦ absurd (ground arith)
                            | inl ((ids, after), e'') ↦ record {
                              rows = rows;
                              placed = placed;
                              mid = mid;
                              selected = e;
                              chosen = e';
                              job_id = ground arith;
                              created = ground arith;
                              queued = ground arith;
                            }
                          ]
                  ]
        ]

pub Planned-Queued :
    {s : ValidSettings} {inputs : PlanningInputs} {season : Season} {reason : CoverageRefreshReason}
    {cat : Catalogue} {db : Store} {p : Plan} {db' : Store}
    → Planned s inputs season reason cat db p db'
    → Queued db db'
Planned-Queued {s} {inputs} {season} {reason} {cat} {db} {p} {db'} w =
    Queued-SameRows db w.mid db'
      (reuse_or_create-SameRows inputs.transaction_at inputs.new_job_id season.year reason
        (active_job season.year db.jobs db.job_ids) w.placed w.rows db w.mid w.chosen)
      (queue_sessions-Queued inputs.transaction_at w.placed w.rows w.mid db'
        p.newly_queued_session_ids w.queued)

-- The planning inside one attempt, on the tables after the schedule was persisted.
pub record PlannedOnce (s : ValidSettings) (inputs : PlanningInputs) (world : World) (p : Plan)
    (world' : World) : Type 0 where
  pub season : Season
  pub reason : CoverageRefreshReason
  pub start : Store
  pub same_jobs : start.jobs ≡ world.store.jobs
  pub same_ids : start.job_ids ≡ world.store.job_ids
  pub same_rows : start.job_sessions ≡ world.store.job_sessions
  pub same_ingestions : start.ingestions ≡ world.store.ingestions
  pub same_gate : start.gate ≡ world.store.gate
  pub planned : Planned s inputs season reason world'.catalogue start p world'.store

module _ (s : ValidSettings) (inputs : PlanningInputs) (world : World) (p : Plan)
    (world' : World) where
  plan_current-PlannedOnce :
      (coverage : SeasonCoverageEligibility) (season : Option Season)
      → plan_current s inputs coverage season world ≡ ok (some (p, world'))
      → PlannedOnce s inputs world p world'
  unfolding plan_current
  plan_current-PlannedOnce coverage none h = absurd (ground arith)
  plan_current-PlannedOnce coverage (some season) h =
      elim (Outcome-cases
        (create_or_reuse_job s inputs season coverage.reason false world.catalogue world.store)) [
          | inr bad ↦ absurd (ground arith)
          | inl ((q, db'), e) ↦
              let same : create_or_reuse_job s inputs season coverage.reason false world'.catalogue
                    world.store
                  ≡ ok (p, world'.store) =
                ground arith in
              record {
                season = season;
                reason = coverage.reason;
                start = world.store;
                same_jobs = refl;
                same_ids = refl;
                same_rows = refl;
                same_ingestions = refl;
                same_gate = refl;
                planned =
                    create_or_reuse_job-Planned s inputs season coverage.reason false
                      world'.catalogue world.store p world'.store same;
              }
        ]

  plan_refreshed-PlannedOnce :
      (coverage : SeasonCoverageEligibility) (schedule : NormalizedSeasonSchedule)
      → plan_refreshed s inputs coverage schedule world ≡ ok (some (p, world'))
      → PlannedOnce s inputs world p world'
  unfolding plan_refreshed
  plan_refreshed-PlannedOnce coverage schedule h =
      let season =
        covered_season schedule.season_year inputs.database_now
          coverage.successful_refresh_valid_until in
      elim (Outcome-cases (
        persist_snapshot inputs.transaction_at inputs.database_now
          coverage.successful_refresh_valid_until schedule world.catalogue)) [
            | inr bad ↦ absurd (ground arith)
            | inl (next, e) ↦
                let start = record world.store { sessions = identity_of next } in
                elim (Outcome-cases
                  (create_or_reuse_job s inputs season coverage.reason true next start)) [
                    | inr bad ↦ absurd (ground arith)
                    | inl ((q, db'), e') ↦
                        let same : create_or_reuse_job s inputs season coverage.reason true
                              world'.catalogue start
                            ≡ ok (p, world'.store) =
                          ground arith in
                        record {
                          season = season;
                          reason = coverage.reason;
                          start = start;
                          same_jobs = refl;
                          same_ids = refl;
                          same_rows = refl;
                          same_ingestions = refl;
                          same_gate = refl;
                          planned =
                              create_or_reuse_job-Planned s inputs season coverage.reason true
                                world'.catalogue start p world'.store same;
                        }
                  ]
          ]

  pub plan_once-PlannedOnce :
      (utc_year : ℕ → ℕ) (year : ℕ) (loaded : Option NormalizedSeasonSchedule)
      → plan_once utc_year s year inputs loaded world ≡ ok (some (p, world'))
      → PlannedOnce s inputs world p world'
  unfolding plan_once
  plan_once-PlannedOnce utc_year year loaded h =
      elim (Outcome-cases
        (coverage_of utc_year s year inputs.database_now (world.catalogue.seasons year))) [
          | inr bad ↦ absurd (ground arith)
          | inl (coverage, e) ↦ elim (Bool-cases coverage.refresh_required) [
            | inr fresh ↦
                plan_current-PlannedOnce coverage (world.catalogue.seasons year) (ground arith)
            | inl stale ↦ elim (Option-cases loaded) [
              | inl e' ↦ absurd (ground arith)
              | inr (schedule, e') ↦ plan_refreshed-PlannedOnce coverage schedule (ground arith)
            ]
          ]
        ]

pub Inv-PlannedOnce :
    (s : ValidSettings) (inputs : PlanningInputs) (world : World) (p : Plan) (world' : World)
    → 0 < s.max_attempts
    → Inv s.max_attempts world.store
    → PlannedOnce s inputs world p world'
    → Inv s.max_attempts world'.store
Inv-PlannedOnce s inputs world p world' pos inv w =
    let start : Inv s.max_attempts w.start = record {
      unique = rw w.same_rows inv.unique;
      budgeted = rw w.same_rows inv.budgeted;
      exclusive = λ n. rw (w.same_rows, w.same_ingestions) (inv.exclusive n);
    } in
    Inv-Queued s.max_attempts w.start world'.store pos start (Planned-Queued w.planned)
