-- ===== src/Worker/Superseded.antt =====
-- A worker whose job-session was claimed again meanwhile.
use formula1_dashboard.Common.{
  ℕ, ◌<◌, ◌≡◌, Option, none, some, Outcome, ok, err, arith, Outcome-cases, Bool-cases, inl, inr,
}
use formula1_dashboard.Policy.Settings.{ValidSettings}
use formula1_dashboard.Failures.{ArchiveError, classify_retry}
use formula1_dashboard.Store.{Store, SessionIdentity, StoreError}
use formula1_dashboard.Orchestration.Rows.{Claim}
use formula1_dashboard.Orchestration.Claim.{claim_next}
use formula1_dashboard.Orchestration.Failure.{Transition, transition_failure}
use formula1_dashboard.Orchestration.Tokens.{token}
use formula1_dashboard.Orchestration.Fencing.{Steps-token, refuse_stale}
use formula1_dashboard.Worker.Ingest.{Source, Persistence, prepare, persist}
use formula1_dashboard.Worker.Process.{
  SessionOutcome, ownership_lost, ProcessInputs, Processed, drawn_jitter, is_ownership,
  handle_failure, finish, process_claimed, process_next, effective_error,
}
use formula1_dashboard.Worker.Refinement.{OthersStep}

handle_failure-refused :
    (s : ValidSettings) (inputs : ProcessInputs) (claim : Claim) (error : ArchiveError) (db : Store)
    (o : SessionOutcome) (t : Option Transition)
    → claim.session_attempt_token < token db claim.session_id
    → (handle_failure s inputs claim error db).1 ≡ ok (o, t)
    → o ≡ ownership_lost
unfolding handle_failure
handle_failure-refused s inputs claim error db o t stale h =
    let jitter = drawn_jitter inputs.jitter (classify_retry error) in
    let refused = (refuse_stale s claim db stale).failure inputs.failed_at error jitter in
    elim (Bool-cases (is_ownership error)) [
      | inl lost ↦ ground arith
      | inr held ↦
          elim (Outcome-cases (transition_failure s inputs.failed_at claim error jitter db)) [
            | inr (e, bad) ↦ ground arith
            | inl ((t', db'), e) ↦ absurd (ground (arith, refused))
          ]
    ]

persist-refused :
    (s : ValidSettings) (p : Persistence) (claim : Claim) (target : SessionIdentity) (db : Store)
    (at : ℕ) (db' : Store)
    → claim.session_attempt_token < token db claim.session_id
    → ¬ (persist p claim target db ≡ ok (at, db'))
unfolding persist
persist-refused s p claim target db at db' stale h =
    let refused =
      (refuse_stale s claim db stale).completion p.persisted_at none none (some target)
        p.foreign_rows in
    ground (arith, refused)

finish-outcome :
    (inputs : ProcessInputs) (claim : Claim) (db db' : Store)
    (result : Outcome StoreError (SessionOutcome × Option Transition)) (p : Processed)
    → finish inputs claim (db, result) ≡ (db', ok (some p))
    → (t : Option Transition) × (result ≡ ok (p.outcome, t))
unfolding finish
finish-outcome inputs claim db db' (err e) p h = absurd (ground arith)
finish-outcome inputs claim db db' (ok (outcome, transition)) p h = (transition, ground arith)

module _ {Frames Snapshot : Type 0} (source : Source Frames Snapshot) (others : ℕ → Store → Store)
    (s : ValidSettings) (inputs : ProcessInputs) where
  process_claimed-refused :
      (claim : Claim) (db : Store) (o : SessionOutcome) (t : Option Transition)
      → OthersStep s others
      → claim.session_attempt_token < token (others 1 db) claim.session_id
      → (process_claimed source others s inputs claim db).1 ≡ ok (o, t)
      → o ≡ ownership_lost
  unfolding process_claimed
  process_claimed-refused claim db o t steps stale h =
      elim (Outcome-cases (prepare source claim.session_id db)) [
        | inr (e, bad) ↦
            handle_failure-refused s inputs claim
              (effective_error source.heartbeat_failure inputs.late_failure e) (others 1 db) o t
              stale (ground arith)
        | inl (target, good) ↦
            elim (Outcome-cases (persist inputs.persistence claim target (others 1 db))) [
              | inr (e, bad) ↦
                  let found = others 1 db in
                  let later = Steps-token (steps 2 found) claim.session_id in
                  handle_failure-refused s inputs claim
                    (effective_error source.heartbeat_failure inputs.late_failure e)
                    (others 2 found) o t (omega (arith, later, stale)) (ground arith)
              | inl ((at, db'), e) ↦
                  absurd
                    (persist-refused s inputs.persistence claim target (others 1 db) at db' stale e)
            ]
      ]

  -- Where the other sessions do nothing but operations, and the job-session of a worker's claim has a
  -- later attempt token when the worker comes to write its result, the worker answers, if it answers,
  -- that it lost the ownership: never that the session is completed, retried or failed.
  pub superseded_worker :
      (db db1 db' : Store) (claim : Claim) (p : Processed)
      → OthersStep s others
      → claim_next s inputs.claim_clock inputs.locked db ≡ ok (some claim, db1)
      → claim.session_attempt_token < token (others 1 (others 0 db1)) claim.session_id
      → process_next source others s inputs db ≡ (db', ok (some p))
      → p.outcome ≡ ownership_lost
  unfolding process_next
  superseded_worker db db1 db' claim p steps claimed stale h =
      let after = process_claimed source others s inputs claim (others 0 db1) in
      let last : finish inputs claim (others 3 after.0, after.1) ≡ (db', ok (some p)) =
        ground arith in
      let result = finish-outcome inputs claim (others 3 after.0) db' after.1 p last in
      process_claimed-refused claim (others 0 db1) p.outcome result.0 steps stale result.1
