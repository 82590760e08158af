-- ===== src/Worker/Refinement.antt =====
-- Whatever a worker does to the tables is a sequence of the operations.
use formula1_dashboard.Common.{
  ℕ, ◌+◌, ◌≡◌, subst, Option, none, some, List, [], ◌∷◌, Outcome, ok, err, arith, Outcome-cases,
  Bool-cases, inl, inr,
}
use formula1_dashboard.Policy.Settings.{ValidSettings}
use formula1_dashboard.Failures.{ArchiveError, classify_retry}
use formula1_dashboard.Store.{Store, Job, SessionIdentity, StoreError}
use formula1_dashboard.Orchestration.Rows.{Claim}
use formula1_dashboard.Orchestration.Claim.{claim_next}
use formula1_dashboard.Orchestration.Failure.{Transition, transition_failure}
use formula1_dashboard.Orchestration.Recovery.{Environment, recover_stale}
use formula1_dashboard.Orchestration.Aggregation.{aggregate}
use formula1_dashboard.Orchestration.Steps.{
  Step, Steps, claims, fails, completes, recovers, aggregates, done, step,
}
use formula1_dashboard.Worker.Ingest.{Source, Persistence, prepare, persist}
use formula1_dashboard.Worker.Process.{
  SessionOutcome, ProcessInputs, drawn_jitter, is_ownership, handle_failure, finish,
  process_claimed, process_next, effective_error,
}
use formula1_dashboard.Worker.Maintenance.{aggregate_jobs, active_jobs, perform_maintenance}

pub Steps-trans : {s : ValidSettings} {a b c : Store} → Steps s a b → Steps s b c → Steps s a c
Steps-trans done more = more
Steps-trans (step one rest) more = step one (Steps-trans rest more)

Steps-same : {s : ValidSettings} {a b : Store} → a ≡ b → Steps s a b
Steps-same {s} {a} {b} e = subst (Steps s a) e done

handle_failure-Steps :
    (s : ValidSettings) (inputs : ProcessInputs) (claim : Claim) (error : ArchiveError) (db : Store)
    → Steps s db (handle_failure s inputs claim error db).0
unfolding handle_failure
handle_failure-Steps s inputs claim error db =
    let jitter = drawn_jitter inputs.jitter (classify_retry error) in
    elim (Bool-cases (is_ownership error)) [
      | inl lost ↦ Steps-same (ground arith)
      | inr held ↦
          elim (Outcome-cases (transition_failure s inputs.failed_at claim error jitter db)) [
            | inr (e, bad) ↦ Steps-same (ground arith)
            | inl ((t, db'), e) ↦
                let left : db' ≡ (handle_failure s inputs claim error db).0 = ground arith in
                subst (Steps s db) left (step (fails inputs.failed_at claim error jitter t e) done)
          ]
    ]

pub finish-Steps :
    (s : ValidSettings) (inputs : ProcessInputs) (claim : Claim) (db : Store)
    (result : Outcome StoreError (SessionOutcome × Option Transition))
    → Steps s db (finish inputs claim (db, result)).0
unfolding finish
finish-Steps s inputs claim db (err e) = done
finish-Steps s inputs claim db (ok (outcome, transition)) =
    elim (Outcome-cases (aggregate inputs.aggregated_at claim.job_id db)) [
      | inr (e, bad) ↦ Steps-same (ground arith)
      | inl ((a, db'), e) ↦
          let left : db' ≡ (finish inputs claim (db, ok (outcome, transition))).0 = ground arith in
          subst (Steps s db) left (step (aggregates inputs.aggregated_at claim.job_id a e) done)
    ]

persist-Step :
    (s : ValidSettings) (p : Persistence) (claim : Claim) (target : SessionIdentity) (db : Store)
    (at : ℕ) (db' : Store)
    → persist p claim target db ≡ ok (at, db')
    → Step s db db'
unfolding persist
persist-Step s p claim target db at db' h =
    completes p.persisted_at none none (some target) p.foreign_rows at claim (ground arith)

-- What the other sessions do are operations too.
abbrev pub OthersStep : ValidSettings → (ℕ → Store → Store) → Type 0
OthersStep s others = (k : ℕ) (db : Store) → Steps s db (others k db)

module _ {Frames Snapshot : Type 0} (source : Source Frames Snapshot) (others : ℕ → Store → Store)
    (s : ValidSettings) where
  pub process_claimed-Steps :
      (inputs : ProcessInputs) (claim : Claim) (db : Store)
      → OthersStep s others
      → Steps s db (process_claimed source others s inputs claim db).0
  unfolding process_claimed
  process_claimed-Steps inputs claim db o =
      elim (Outcome-cases (prepare source claim.session_id db)) [
        | inr (e, bad) ↦
            let error = effective_error source.heartbeat_failure inputs.late_failure e in
            rw (bad, process_claimed)
              (Steps-trans (o 1 db) (handle_failure-Steps s inputs claim error (others 1 db)))
        | inl (target, good) ↦
            elim (Outcome-cases (persist inputs.persistence claim target (others 1 db))) [
              | inr (e, bad) ↦
                  let error = effective_error source.heartbeat_failure inputs.late_failure e in
                  let found = others 1 db in
                  rw (good, bad, process_claimed)
                    (Steps-trans (o 1 db) (
                      Steps-trans (o 2 found)
                        (handle_failure-Steps s inputs claim error (others 2 found))))
              | inl ((at, db'), e) ↦
                  rw (good, e, process_claimed)
                    (Steps-trans (o 1 db) (
                      step (persist-Step s inputs.persistence claim target (others 1 db) at db' e)
                        done))
            ]
      ]

  -- Where the other sessions do nothing but operations, whatever a worker does to the tables in
  -- processing one job-session, in every outcome and where it raises, is a sequence of operations.
  process_next-Steps :
      (inputs : ProcessInputs) (db : Store)
      → OthersStep s others
      → Steps s db (process_next source others s inputs db).0
  unfolding process_next
  process_next-Steps inputs db o =
      elim (Outcome-cases (claim_next s inputs.claim_clock inputs.locked db)) [
        | inr (e, bad) ↦ rw (bad, process_next) done
        | inl ((none, db'), e) ↦
            rw (e, process_next) (step (claims inputs.claim_clock inputs.locked none e) done)
        | inl ((some claim, db'), e) ↦
            let found = others 0 db' in
            let after = process_claimed source others s inputs claim found in
            rw (e, process_next)
              (step (claims inputs.claim_clock inputs.locked (some claim) e) (
                Steps-trans (o 0 db') (
                  Steps-trans (process_claimed-Steps inputs claim found o) (
                    Steps-trans (o 3 after.0)
                      (finish-Steps s inputs claim (others 3 after.0) after.1)))))
      ]

module _ (others : ℕ → Store → Store) (s : ValidSettings) where
  aggregate_jobs-Steps :
      (clock : ℕ → ℕ) (round : ℕ) (jobs : List Job) (db : Store)
      → OthersStep s others
      → Steps s db (aggregate_jobs others clock round jobs db).0
  unfolding aggregate_jobs
  aggregate_jobs-Steps clock round [] db o = done
  aggregate_jobs-Steps clock round (job ∷ jobs) db o =
      let found = others round db in
      elim (Outcome-cases (aggregate (clock round) job.id found)) [
        | inr (e, bad) ↦ rw (bad, aggregate_jobs) (o round db)
        | inl ((a, db'), e) ↦
            let rest = aggregate_jobs others clock (round + 1) jobs db' in
            let more : Steps s db rest.0 = Steps-trans (o round db) (
              step (aggregates (clock round) job.id a e)
                (aggregate_jobs-Steps clock (round + 1) jobs db' o)) in
            elim (Outcome-cases rest.1) [
              | inr (e', bad) ↦ rw (e, bad, aggregate_jobs) more
              | inl (l, good) ↦ rw (e, good, aggregate_jobs) more
            ]
      ]

  -- Where the other sessions do nothing but operations, whatever a maintenance does to the tables, also
  -- where it raises, is a sequence of operations.
  perform_maintenance-Steps :
      (env : Environment) (batch_size : ℕ) (clock : ℕ → ℕ) (db : Store)
      → OthersStep s others
      → Steps s db (perform_maintenance others s env batch_size clock db).0
  unfolding perform_maintenance
  perform_maintenance-Steps env batch_size clock db o =
      elim (Outcome-cases (recover_stale s env batch_size db)) [
        | inr (e, bad) ↦ rw (bad, perform_maintenance) done
        | inl ((leases, db'), e) ↦
            let found = others 0 db' in
            let jobs = active_jobs found.jobs found.job_ids in
            let rest = aggregate_jobs others clock 1 jobs found in
            let more : Steps s db rest.0 =
              step (recovers env batch_size leases e)
                (Steps-trans (o 0 db') (aggregate_jobs-Steps clock 1 jobs found o)) in
            elim (Outcome-cases rest.1) [
              | inr (e', bad) ↦ rw (e, bad, perform_maintenance) more
              | inl (l, good) ↦ rw (e, good, perform_maintenance) more
            ]
      ]
