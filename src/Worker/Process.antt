-- ===== src/Worker/Process.antt =====
-- `process_next_archive_job_session`.
use formula1_dashboard.Common.{
  ℕ, Bool, true, false, Option, none, some, Outcome, ok, err, if◌then◌else◌,
}
use formula1_dashboard.Policy.Number.{Number, nonnegative}
use formula1_dashboard.Policy.Settings.{ValidSettings}
use formula1_dashboard.Failures.{
  ArchiveError, RetryDisposition, retryable, terminal, classify_retry, persistence_ownership,
  claim_ownership,
}
use formula1_dashboard.Store.{Store, JobSession, StoreError, is_pending}
use formula1_dashboard.Orchestration.Rows.{Claim}
use formula1_dashboard.Orchestration.Claim.{Readings, claim_next}
use formula1_dashboard.Orchestration.Failure.{Transition, transition_failure}
use formula1_dashboard.Orchestration.Aggregation.{Aggregation, aggregate}
use formula1_dashboard.Worker.Ingest.{Source, Persistence, prepare, persist}

-- `WorkerSessionOutcome`.
pub data SessionOutcome : Type 0 where
  completed retry_pending failed ownership_lost : SessionOutcome

-- `ProcessedArchiveJobSession`, the summary of the ingestion apart.
pub record Processed : Type 0 where
  pub claim : Claim
  pub outcome : SessionOutcome
  pub failure_transition : Option Transition
  pub aggregation : Aggregation

-- What one processing reads: the clocks and the locked rows of its transactions, a failure of the
-- heartbeat monitor that comes after the test before the persistence, and the jitter.
pub record ProcessInputs : Type 0 where
  pub claim_clock : Readings
  pub locked : JobSession → Bool
  pub persistence : Persistence
  pub late_failure : Option ArchiveError
  pub failed_at : ℕ
  pub jitter : Number
  pub aggregated_at : ℕ

abbrev zero_number : Number
zero_number = nonnegative (record { num = 0; pred_den = 0 })

-- `isinstance(effective_error, (BackfillClaimOwnershipError, ArchivePersistenceOwnershipError))`.
abbrev pub is_ownership : ArchiveError → Bool
is_ownership claim_ownership = true
is_ownership persistence_ownership = true
is_ownership _ = false

-- `monitor.failure or ingestion_error`; the failure of the monitor is the one that was there before
-- the persistence, or one that came later.
abbrev pub effective_error : Option ArchiveError → Option ArchiveError → ArchiveError → ArchiveError
effective_error (some failure) late error = failure
effective_error none (some failure) error = failure
effective_error none none error = error

-- The jitter is drawn for a retry only.
abbrev pub drawn_jitter : Number → RetryDisposition → Number
drawn_jitter jitter retryable = jitter
drawn_jitter jitter terminal = zero_number

abbrev pub outcome_of : Transition → SessionOutcome
outcome_of t = if is_pending t.status then retry_pending else failed

-- A failed transition that is no loss of ownership is raised.
abbrev pub lost_or_raised : StoreError → Outcome StoreError (SessionOutcome × Option Transition)
lost_or_raised StoreError.claim_ownership = ok (ownership_lost, none)
lost_or_raised e = err e

-- The part after an ingestion that raised, on the tables that the transition finds.
unfoldable pub handle_failure :
    ValidSettings
    → ProcessInputs
    → Claim
    → ArchiveError
    → Store
    → Store × Outcome StoreError (SessionOutcome × Option Transition)
unfolding transition_failure classify_retry
handle_failure s inputs claim error db =
    if is_ownership error
    then (db, ok (ownership_lost, none))
    else (elim (transition_failure s inputs.failed_at claim error
        (drawn_jitter inputs.jitter (classify_retry error)) db) [
          | ok (t, db') ↦ (db', ok (outcome_of t, some t))
          | err e ↦ (db, lost_or_raised e)
        ])

-- The last transaction.
unfoldable pub finish :
    ProcessInputs
    → Claim
    → Store × Outcome StoreError (SessionOutcome × Option Transition)
    → Store × Outcome StoreError (Option Processed)
unfolding aggregate
finish inputs claim (db, err e) = (db, err e)
finish inputs claim (db, ok (outcome, transition)) =
    elim (aggregate inputs.aggregated_at claim.job_id db) [
      | err e ↦ (db, err e)
      | ok (a, db') ↦ (
        db',
        ok (
            some (record {
              claim = claim;
              outcome = outcome;
              failure_transition = transition;
              aggregation = a;
            })),
      )
    ]

-- `others k` is what the other sessions make of the tables before the transaction `k`.
module _ {Frames Snapshot : Type 0} (source : Source Frames Snapshot)
    (others : ℕ → Store → Store) where
  -- The ingestion, and what follows it, after a claim left the tables `db`.
  unfoldable pub process_claimed :
      ValidSettings
      → ProcessInputs
      → Claim
      → Store
      → Store × Outcome StoreError (SessionOutcome × Option Transition)
  unfolding prepare persist handle_failure
  process_claimed s inputs claim db = elim (prepare source claim.session_id db) [
    | err e ↦
        handle_failure s inputs claim
          (effective_error source.heartbeat_failure inputs.late_failure e) (others 1 db)
    | ok target ↦ elim (persist inputs.persistence claim target (others 1 db)) [
      | err e ↦
          handle_failure s inputs claim
            (effective_error source.heartbeat_failure inputs.late_failure e)
            (others 2 (others 1 db))
      | ok (at, db') ↦ (db', ok (completed, none))
    ]
  ]

  unfoldable pub process_next :
      ValidSettings → ProcessInputs → Store → Store × Outcome StoreError (Option Processed)
  unfolding claim_next process_claimed finish
  process_next s inputs db = elim (claim_next s inputs.claim_clock inputs.locked db) [
    | err e ↦ (db, err e)
    | ok (none, db') ↦ (db', ok none)
    | ok (some claim, db') ↦
        let (after, result) = process_claimed s inputs claim (others 0 db') in
        finish inputs claim (others 3 after, result)
  ]
