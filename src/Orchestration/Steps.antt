-- ===== src/Orchestration/Steps.antt =====
-- Sequences of operations on one store, by any number of workers.
use formula1_dashboard.Common.{ℕ, ◌≤◌, ◌<◌, ◌≡◌, Bool, Option, some, List, ok, count, arith}
use formula1_dashboard.Policy.Number.{Number}
use formula1_dashboard.Policy.Settings.{ValidSettings}
use formula1_dashboard.Failures.{ArchiveError}
use formula1_dashboard.Store.{Store, JobSession, SessionIdentity}
use formula1_dashboard.Orchestration.Rows.{Claim}
use formula1_dashboard.Orchestration.Claim.{Readings, claim_next}
use formula1_dashboard.Orchestration.Heartbeat.{heartbeat}
use formula1_dashboard.Orchestration.Failure.{Transition, transition_failure}
use formula1_dashboard.Orchestration.Recovery.{RecoveredLease, Environment, recover_stale}
use formula1_dashboard.Orchestration.Completion.{complete_claim}
use formula1_dashboard.Orchestration.Aggregation.{Aggregation, aggregate}
use formula1_dashboard.Planning.Catalogue.{Catalogue, NormalizedSeasonSchedule}
use formula1_dashboard.Planning.Queue.{Plan, PlanningInputs}
use formula1_dashboard.Planning.Ensure.{World, plan_once}
use formula1_dashboard.Planning.Writes.{plan_once-PlannedOnce, Inv-PlannedOnce}
use formula1_dashboard.Orchestration.Invariant.{Inv, runs_session}
use formula1_dashboard.Orchestration.Keeps.Claims.{Inv-claim_next}
use formula1_dashboard.Orchestration.Keeps.Recoveries.{Inv-recover_stale}
use formula1_dashboard.Orchestration.Keeps.Leases.{
  Inv-heartbeat, Inv-complete_claim, Inv-transition_failure, Inv-aggregate,
}

-- One operation that succeeded, with any arguments: any claim, whoever holds it. A planning works on
-- the catalogue too, which no other operation writes.
pub data Step (s : ValidSettings) : Store → Store → Type 0 where
  claims :
      {db db' : Store} (clock : Readings) (locked : JobSession → Bool) (r : Option Claim)
      → claim_next s clock locked db ≡ ok (r, db')
      → Step s db db'
  beats :
      {db db' : Store} (now t : ℕ) (claim : Claim)
      → heartbeat now claim db ≡ ok (t, db')
      → Step s db db'
  fails :
      {db db' : Store} (at : ℕ) (claim : Claim) (error : ArchiveError) (jitter : Number)
      (t : Transition)
      → transition_failure s at claim error jitter db ≡ ok (t, db')
      → Step s db db'
  completes :
      {db db' : Store} (now : ℕ) (at source_updated : Option ℕ) (expected : Option SessionIdentity)
      (foreign_rows : Bool) (t : ℕ) (claim : Claim)
      → complete_claim now at source_updated expected foreign_rows claim db ≡ ok (t, db')
      → Step s db db'
  recovers :
      {db db' : Store} (env : Environment) (batch_size : ℕ) (leases : List RecoveredLease)
      → recover_stale s env batch_size db ≡ ok (leases, db')
      → Step s db db'
  aggregates :
      {db db' : Store} (now id : ℕ) (a : Aggregation)
      → aggregate now id db ≡ ok (a, db')
      → Step s db db'
  plans :
      {db db' : Store} (utc_year : ℕ → ℕ) (year : ℕ) (inputs : PlanningInputs)
      (loaded : Option NormalizedSeasonSchedule) (cat cat' : Catalogue) (p : Plan)
      → 0 < s.max_attempts
      → plan_once utc_year s year inputs loaded (record { catalogue = cat; store = db })
        ≡ ok (some (p, record { catalogue = cat'; store = db' }))
      → Step s db db'

pub data Steps (s : ValidSettings) : Store → Store → Type 0 where
  done : {db : Store} → Steps s db db
  step : {db db' db'' : Store} → Step s db db' → Steps s db' db'' → Steps s db db''

Step-Inv :
    {s : ValidSettings} {db db' : Store}
    → Step s db db'
    → Inv s.max_attempts db
    → Inv s.max_attempts db'
Step-Inv {s} {db} {db'} (claims clock locked r h) inv = Inv-claim_next s clock locked db db' r inv h
Step-Inv {s} {db} {db'} (beats now t claim h) inv =
    Inv-heartbeat s.max_attempts now t claim db db' inv h
Step-Inv {s} {db} {db'} (fails at claim error jitter t h) inv =
    Inv-transition_failure s at claim error jitter t db db' inv h
Step-Inv {s} {db} {db'} (completes now at source_updated expected foreign_rows t claim h) inv =
    Inv-complete_claim s.max_attempts now at source_updated expected foreign_rows t claim db db' inv
      h
Step-Inv {s} {db} {db'} (recovers env batch_size leases h) inv =
    Inv-recover_stale s env batch_size db db' leases inv h
Step-Inv {s} {db} {db'} (aggregates now id a h) inv =
    Inv-aggregate s.max_attempts now id a db db' inv h
Step-Inv {s} {db} {db'} (plans utc_year year inputs loaded cat cat' p pos h) inv =
    let world : World = record { catalogue = cat; store = db } in
    let world' : World = record { catalogue = cat'; store = db' } in
    Inv-PlannedOnce s inputs world p world' pos inv
      (plan_once-PlannedOnce s inputs world p world' utc_year year loaded h)

-- From tables that satisfy the invariant, every sequence of operations leads to tables that do: keys
-- stay unique, no job-session passes the attempts allowed, a pending one can still be claimed, a
-- running one was attempted, and a session has at most as many running job-sessions as its ingestion
-- is running.
pub Steps-Inv :
    {s : ValidSettings} {db db' : Store}
    → Steps s db db'
    → Inv s.max_attempts db
    → Inv s.max_attempts db'
Steps-Inv done inv = inv
Steps-Inv (step one more) inv = Steps-Inv more (Step-Inv one inv)

-- From tables that satisfy the invariant, no sequence of operations makes two job-sessions of one
-- session run at once.
pub one_runner :
    {s : ValidSettings} {db db' : Store} (n : ℕ)
    → Inv s.max_attempts db
    → Steps s db db'
    → count (runs_session n) db'.job_sessions ≤ 1
one_runner n inv steps = ground (arith, (Steps-Inv steps inv).exclusive n)
