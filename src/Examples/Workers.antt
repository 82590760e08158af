-- ===== src/Examples/Workers.antt =====
-- The theorems on the worker.
use formula1_dashboard.Common.{
  ℕ, ◌≡◌, ◌<◌, ◌==◌, refl, true, false, Option, none, some, Outcome, ok, arith, if◌then◌else◌,
  Outcome-cases, inl, inr, select, List, [], err,
}
use formula1_dashboard.Policy.Number.{nonnegative, unit_fraction, round_div, equal_jitter}
use formula1_dashboard.Policy.Retry.{calculate_retry_schedule, nominal_seconds}
use formula1_dashboard.Store.{Store, Status, StoreError, find_row, put_row}
use formula1_dashboard.Orchestration.Tokens.{token}
use formula1_dashboard.Orchestration.Claim.{claim_next}
use formula1_dashboard.Orchestration.Recovery.{RecoveredLease, Environment, recover_stale}
use formula1_dashboard.Orchestration.Aggregation.{aggregate}
use formula1_dashboard.Orchestration.Steps.{Steps, claims, recovers, done, step}
use formula1_dashboard.Worker.Ingest.{Source}
use formula1_dashboard.Worker.Process.{
  ProcessInputs, Processed, SessionOutcome, ownership_lost, process_next,
}
use formula1_dashboard.Worker.Maintenance.{MaintenanceSummary, perform_maintenance}
use formula1_dashboard.Worker.Refinement.{OthersStep, Steps-trans}
use formula1_dashboard.Worker.Superseded.{superseded_worker}
use formula1_dashboard.Examples.Data.{
  settings, queued, unlocked, clock_at, claim_numbered, store_of,
}

-- The loader returns what was asked for, and nothing in it is wrong.
abbrev source : Source ℕ ℕ
source = record {
  load = λ request. ok (record { request = request; session_name = "Race"; frames = 0 });
  normalize = λ loaded. ok 0;
  casefold = λ name. name;
  heartbeat_failure = none;
}

abbrev inputs : ProcessInputs
inputs = record {
  claim_clock = clock_at 100;
  locked = unlocked;
  persistence = record { persisted_at = 20000000000; foreign_rows = false };
  late_failure = none;
  failed_at = 20000000000;
  jitter = nonnegative (record { num = 0; pred_den = 0 });
  aggregated_at = 20000000000;
}

-- At 400000000 the lease of the claim has expired.
abbrev recovery : Environment
recovery = record {
  scanned_at = λ _. 400000000;
  locked = unlocked;
  recovered_at = λ _. 400000000;
  jitter = λ _. nonnegative (record { num = 0; pred_den = 0 });
}

recovered : Store → Store
recovered db = store_of db (recover_stale settings recovery 1 db)

claimed_later : Store → Store
claimed_later db = store_of db (claim_next settings (clock_at 10000000000) unlocked db)

recovered-Steps : (db : Store) → Steps settings db (recovered db)
unfolding recovered
recovered-Steps db = elim (Outcome-cases (recover_stale settings recovery 1 db)) [
  | inr (e, bad) ↦ rw bad done
  | inl ((leases, db'), e) ↦ rw e (step (recovers recovery 1 leases e) done)
]

claimed_later-Steps : (db : Store) → Steps settings db (claimed_later db)
unfolding claimed_later
claimed_later-Steps db =
    elim (Outcome-cases (claim_next settings (clock_at 10000000000) unlocked db)) [
      | inr (e, bad) ↦ rw bad done
      | inl ((c, db'), e) ↦ rw e (step (claims (clock_at 10000000000) unlocked c e) done)
    ]

-- Before the second transaction the lease is recovered and the session claimed by another worker.
abbrev others : ℕ → Store → Store
others k db = if k == 1 then claimed_later (recovered db) else db

others-OthersStep : OthersStep settings others
others-OthersStep k db =
    elim (k == 1) as (λ b. Steps settings db (if b then claimed_later (recovered db) else db)) [
      | true ↦ Steps-trans (recovered-Steps db) (claimed_later-Steps (recovered db))
      | false ↦ done
    ]

claimed : Store
unfolding claim_next
claimed = store_of queued (claim_next settings (clock_at 100) unlocked queued)

claimed_first :
    claim_next settings (clock_at 100) unlocked queued ≡ ok (some (claim_numbered 1 100), claimed)
unfolding claimed claim_next
claimed_first = refl

-- The claim of the first worker has a smaller token than the session has by then.
token_moved : 1 < token (others 1 (others 0 claimed)) 7
unfolding claimed claimed_later recovered claim_next recover_stale calculate_retry_schedule
    unit_fraction equal_jitter round_div nominal_seconds find_row put_row select
token_moved = omega arith

abbrev no_session : Processed
no_session = record {
  claim = claim_numbered 0 0;
  outcome = SessionOutcome.completed;
  failure_transition = none;
  aggregation = record {
    job_id = 0;
    status = Status.pending;
    total_sessions = 0;
    counts = record {
      pending_sessions = 0;
      running_sessions = 0;
      completed_sessions = 0;
      failed_sessions = 0;
    };
    aggregated_at = 0;
    completed_at = none;
  };
}

abbrev processed_of : Outcome StoreError (Option Processed) → Processed
processed_of (ok (some p)) = p
processed_of _ = no_session

left : Store
left = (process_next source others settings inputs queued).0

answer : Processed
answer = processed_of (process_next source others settings inputs queued).1

processing : process_next source others settings inputs queued ≡ (left, ok (some answer))
unfolding left answer process_next claimed_later recovered claim_next recover_stale aggregate
    calculate_retry_schedule unit_fraction equal_jitter round_div nominal_seconds find_row put_row
    select
processing = refl

superseded_worker_example : answer.outcome ≡ ownership_lost
superseded_worker_example =
    superseded_worker source others settings inputs queued claimed left (claim_numbered 1 100)
      answer others-OthersStep claimed_first token_moved processing

-- A maintenance while nobody else works, after the lease of a claim expired.
abbrev alone : ℕ → Store → Store
alone k db = db

maintained : Store
maintained = (perform_maintenance alone settings recovery 10 (λ _. 500000000) claimed).0

abbrev no_summary : MaintenanceSummary
no_summary = record { recovered = []; aggregations = [] }

abbrev summary_of : Outcome StoreError MaintenanceSummary → MaintenanceSummary
summary_of (ok summary) = summary
summary_of (err e) = no_summary

done_work : MaintenanceSummary
done_work = summary_of (perform_maintenance alone settings recovery 10 (λ _. 500000000) claimed).1

abbrev leases_of : Outcome StoreError (List RecoveredLease × Store) → List RecoveredLease
leases_of (ok (leases, db)) = leases
leases_of (err e) = []

leases : List RecoveredLease
leases = leases_of (recover_stale settings recovery 10 claimed)

after_recovery : Store
after_recovery = store_of claimed (recover_stale settings recovery 10 claimed)
