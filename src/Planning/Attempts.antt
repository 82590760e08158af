-- ===== src/Planning/Attempts.antt =====
-- When the planning of a season gives up.
use formula1_dashboard.Common.{
  ℕ, ◌≤◌, ◌≡◌, ◌≢◌, ◌↔◌, refl, true, false, Option, none, some, List, [], ◌∷◌, ok, err, arith,
  Outcome-cases, Bool-cases, Option-cases, inl, inr, subst,
}
use formula1_dashboard.Policy.Settings.{ValidSettings}
use formula1_dashboard.Freshness.{
  SeasonCoverageEligibility, evaluate_season_coverage, coverage_reason, refresh_required_for,
}
use formula1_dashboard.Planning.Catalogue.{
  Season, NormalizedSeasonSchedule, coverage_changed, identity_of,
}
use formula1_dashboard.Planning.Discovery.{persist_snapshot, covered_season}
use formula1_dashboard.Planning.Queue.{PlanningInputs, create_or_reuse_job}
use formula1_dashboard.Planning.Ensure.{
  World, Attempt, coverage_of, coverage_refresh_required, plan_current, plan_refreshed, plan_once,
  load_schedule, plan_attempts, ensure_season_backfill, validate_season_year,
  validate_loaded_schedule,
}
use formula1_dashboard.Planning.Errors.{GoesOn, persist_snapshot-GoesOn, create_or_reuse_job-GoesOn}

module _ (utc_year : ℕ → ℕ) (s : ValidSettings) (year : ℕ) where
  coverage_of-GoesOn :
      (now : ℕ) (season : Option Season) → GoesOn (coverage_of utc_year s year now season)
  unfolding coverage_of
  coverage_of-GoesOn now season h = ground arith

  -- Without a row the coverage is missing.
  coverage_of-none :
      (now : ℕ) (c : SeasonCoverageEligibility)
      → coverage_of utc_year s year now none ≡ ok c
      → c.refresh_required ≡ true
  unfolding coverage_of evaluate_season_coverage coverage_reason refresh_required_for
  coverage_of-none now c h = ground arith

  plan_refreshed-ends :
      (inputs : PlanningInputs) (c : SeasonCoverageEligibility)
      (schedule : NormalizedSeasonSchedule) (world : World)
      → (plan_refreshed s inputs c schedule world ≢ ok none)
        × GoesOn (plan_refreshed s inputs c schedule world)
  unfolding plan_refreshed
  plan_refreshed-ends inputs c schedule world =
      let season =
        covered_season schedule.season_year inputs.database_now c.successful_refresh_valid_until in
      elim (Outcome-cases (
        persist_snapshot inputs.transaction_at inputs.database_now c.successful_refresh_valid_until
          schedule world.catalogue)) [
            | inr (e, bad) ↦
                let f =
                  persist_snapshot-GoesOn inputs.transaction_at inputs.database_now
                    c.successful_refresh_valid_until schedule world.catalogue in
                ((λ h. ground arith), λ h. ground (arith, f))
            | inl (next, e) ↦
                let start = record world.store { sessions = identity_of next } in
                let f = create_or_reuse_job-GoesOn s inputs season c.reason true next start in
                elim (Outcome-cases
                  (create_or_reuse_job s inputs season c.reason true next start)) [
                    | inr (e', bad) ↦ ((λ h. ground arith), λ h. ground (arith, f))
                    | inl ((p, db'), e') ↦ ((λ h. ground arith), λ h. ground arith)
                  ]
          ]

  plan_current-ends :
      (inputs : PlanningInputs) (c : SeasonCoverageEligibility) (season : Season) (world : World)
      → (plan_current s inputs c (some season) world ≢ ok none)
        × GoesOn (plan_current s inputs c (some season) world)
  unfolding plan_current
  plan_current-ends inputs c season world =
      let f =
        create_or_reuse_job-GoesOn s inputs season c.reason false world.catalogue world.store in
      elim (Outcome-cases
        (create_or_reuse_job s inputs season c.reason false world.catalogue world.store)) [
          | inr (e, bad) ↦ ((λ h. ground arith), λ h. ground (arith, f))
          | inl ((p, db'), e) ↦ ((λ h. ground arith), λ h. ground arith)
        ]

  -- A transaction asks for another attempt only where it has no schedule and needs one.
  plan_once-ends :
      (inputs : PlanningInputs) (loaded : Option NormalizedSeasonSchedule) (world : World)
      → (plan_once utc_year s year inputs loaded world ≡ ok none
          → (loaded ≡ none)
            × (coverage_refresh_required utc_year s year inputs.database_now world ≡ ok true))
        × GoesOn (plan_once utc_year s year inputs loaded world)
  unfolding plan_once coverage_refresh_required
  plan_once-ends inputs loaded world =
      elim (Outcome-cases
        (coverage_of utc_year s year inputs.database_now (world.catalogue.seasons year))) [
          | inr (e, bad) ↦
              let f = coverage_of-GoesOn inputs.database_now (world.catalogue.seasons year) in
              ((λ h. ground arith), λ h. ground (arith, f))
          | inl (c, e) ↦ elim (Bool-cases c.refresh_required) [
            | inl stale ↦ elim (Option-cases loaded) [
              | inl e' ↦ ((λ h. ground arith), λ h. ground arith)
              | inr (schedule, e') ↦
                  let f = plan_refreshed-ends inputs c schedule world in
                  ((λ h. ground (arith, f)), λ h. ground (arith, f))
            ]
            | inr fresh ↦ elim (Option-cases (world.catalogue.seasons year)) [
              | inl e' ↦
                  let f : c.refresh_required ≡ true =
                    coverage_of-none inputs.database_now c (
                      subst (λ o. coverage_of utc_year s year inputs.database_now o ≡ ok c) e' e) in
                  ((λ h. ground (arith, f)), λ h. ground (arith, f))
              | inr (season, e') ↦
                  let f = plan_current-ends inputs c season world in
                  ((λ h. ground (arith, f)), λ h. ground (arith, f))
            ]
          ]
        ]

  -- The check of an attempt saw valid coverage, and its transaction saw coverage that is not.
  abbrev pub Overtaken : Attempt → Type 0
  Overtaken a =
      (coverage_refresh_required utc_year s year a.checked_at a.checked ≡ ok false)
      × (coverage_refresh_required utc_year s year a.inputs.database_now a.found ≡ ok true)

  load_schedule-ends :
      (a : Attempt)
      → (load_schedule utc_year s year a none ≡ ok none
          → coverage_refresh_required utc_year s year a.checked_at a.checked ≡ ok false)
        × GoesOn (load_schedule utc_year s year a none)
  unfolding load_schedule coverage_refresh_required validate_loaded_schedule
  load_schedule-ends a =
      let f = coverage_of-GoesOn a.checked_at (a.checked.catalogue.seasons year) in
      ((λ h. ground (arith, f)), λ h. ground (arith, f))

  plan_once-none :
      (inputs : PlanningInputs) (world : World)
      → coverage_refresh_required utc_year s year inputs.database_now world ≡ ok true
      → plan_once utc_year s year inputs none world ≡ ok none
  unfolding plan_once coverage_refresh_required
  plan_once-none inputs world h = ground arith

  load_schedule-none :
      (a : Attempt)
      → coverage_refresh_required utc_year s year a.checked_at a.checked ≡ ok false
      → load_schedule utc_year s year a none ≡ ok none
  unfolding load_schedule
  load_schedule-none a h = ground arith

  plan_attempts-Overtaken :
      (a : Attempt) (attempts : List Attempt)
      → (plan_attempts utc_year s year none (a ∷ attempts) ≡ err coverage_changed)
        ↔ (Overtaken a × (plan_attempts utc_year s year none attempts ≡ err coverage_changed))
  unfolding plan_attempts
  plan_attempts-Overtaken a attempts = (
    (λ h. elim (Outcome-cases (load_schedule utc_year s year a none)) [
      | inr bad ↦ absurd (ground (arith, load_schedule-ends a))
      | inl (loaded, e) ↦
          let f = plan_once-ends a.inputs loaded a.found in
          elim (Outcome-cases (plan_once utc_year s year a.inputs loaded a.found)) [
            | inr bad ↦ absurd (ground (arith, f))
            | inl (none, e') ↦ ground (arith, f, load_schedule-ends a)
            | inl (some result, e') ↦ absurd (ground arith)
          ]
    ]),
    λ h. ground (arith, load_schedule-none a, plan_once-none a.inputs a.found),
  )

  -- The planning gives up on coverage that changes exactly when the year is in range and, in both
  -- attempts, the check saw valid coverage while the transaction saw coverage that needs a refresh.
  pub planning_gives_up :
      (first second : Attempt)
      → (ensure_season_backfill utc_year s year first second ≡ err coverage_changed)
        ↔ ((2018 ≤ year) × (year ≤ 32767) × Overtaken first × Overtaken second)
  unfolding ensure_season_backfill validate_season_year
  planning_gives_up first second =
      let one = plan_attempts-Overtaken first (second ∷ []) in
      let two = plan_attempts-Overtaken second [] in
      let three : plan_attempts utc_year s year none [] ≡ err coverage_changed =
        unfold plan_attempts in refl in
      ((λ h. ground (arith, one, two)), λ h. ground (arith, one, two, three))
