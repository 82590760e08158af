-- ===== src/Orchestration/Fencing.antt =====
-- The attempt token of an ingestion fences off the workers of earlier claims.
use formula1_dashboard.Common.{
  ℕ, ◌≤◌, ◌<◌, ◌≡◌, Bool, Option, some, ok, arith, false, is_ok, never-ok,
}
use formula1_dashboard.Policy.Number.{Number}
use formula1_dashboard.Policy.Settings.{ValidSettings}
use formula1_dashboard.Failures.{ArchiveError, sanitize}
use formula1_dashboard.Store.{Store, JobSession, Ingestion, SessionIdentity}
use formula1_dashboard.Orchestration.Rows.{Claim}
use formula1_dashboard.Orchestration.Claim.{Readings, claim_next}
use formula1_dashboard.Orchestration.Heartbeat.{heartbeat}
use formula1_dashboard.Orchestration.Failure.{transition_failure, failed_row}
use formula1_dashboard.Orchestration.Completion.{complete_claim, completed_row}
use formula1_dashboard.Orchestration.Owned.{Owned}
use formula1_dashboard.Orchestration.Writes.{
  heartbeat-writes, complete_claim-writes, transition_failure-writes,
}
use formula1_dashboard.Orchestration.Steps.{
  Step, Steps, claims, beats, fails, completes, recovers, aggregates, plans, done, step,
}
use formula1_dashboard.Planning.Ensure.{World}
use formula1_dashboard.Planning.Writes.{plan_once-PlannedOnce, Planned-Queued}
use formula1_dashboard.Orchestration.Tokens.{
  token, Written-token, claim_next-token, claim_next-issued, recover_stale-token, aggregate-token,
}

Step-token :
    {s : ValidSettings} {db db' : Store} → Step s db db' → (n : ℕ) → token db n ≤ token db' n
Step-token {s} {db} {db'} (claims clock locked r h) n = claim_next-token s clock db db' locked r n h
Step-token {s} {db} {db'} (beats now t claim h) n =
    let (row, w) = heartbeat-writes now t claim db db' h in
    omega (arith, Written-token claim db db' row (record row { heartbeat_at = some now }) n w)
Step-token {s} {db} {db'} (fails at claim error jitter t h) n =
    let (row, d, w, _) = transition_failure-writes s at claim error jitter t db db' h in
    omega (arith, Written-token claim db db' row (failed_row d (sanitize error) row) n w)
Step-token {s} {db} {db'} (completes now at source_updated expected foreign_rows t claim h) n =
    let (row, w) =
      complete_claim-writes now at source_updated expected foreign_rows t claim db db' h in
    omega (arith, Written-token claim db db' row (completed_row t row) n w)
Step-token {s} {db} {db'} (recovers env batch_size leases h) n =
    omega (arith, recover_stale-token s env batch_size db db' leases n h)
Step-token {s} {db} {db'} (aggregates now id a h) n =
    omega (arith, aggregate-token now id a db db' n h)
Step-token {s} {db} {db'} (plans utc_year year inputs loaded cat cat' p pos h) n =
    let world : World = record { catalogue = cat; store = db } in
    let world' : World = record { catalogue = cat'; store = db' } in
    let w = plan_once-PlannedOnce s inputs world p world' utc_year year loaded h in
    let q = Planned-Queued w.planned in ground (arith, q.ingestions, w.same_ingestions)

-- The token of a session never goes down over a sequence of operations.
pub Steps-token :
    {s : ValidSettings} {db db' : Store} → Steps s db db' → (n : ℕ) → token db n ≤ token db' n
Steps-token done n = omega arith
Steps-token (step one more) n = omega (arith, Step-token one n, Steps-token more n)

-- A claim owns nothing where the token of its session differs.
Owned-token :
    (claim : Claim) (db : Store) (row : JobSession) (i : Ingestion)
    → Owned claim db row i
    → token db claim.session_id ≡ claim.session_attempt_token
Owned-token claim db row i owned = ground (arith, owned.ingestion_found, owned.ingestion_token)

-- No operation accepts a claim.
pub record Refused (s : ValidSettings) (claim : Claim) (db : Store) : Type 0 where
  pub beat : (now : ℕ) → is_ok (heartbeat now claim db) ≡ false
  pub failure :
      (at : ℕ) (error : ArchiveError) (jitter : Number)
      → is_ok (transition_failure s at claim error jitter db) ≡ false
  pub completion :
      (now : ℕ) (at source_updated : Option ℕ) (expected : Option SessionIdentity)
      (foreign_rows : Bool)
      → is_ok (complete_claim now at source_updated expected foreign_rows claim db) ≡ false

pub refuse_stale :
    (s : ValidSettings) (claim : Claim) (db : Store)
    → claim.session_attempt_token < token db claim.session_id
    → Refused s claim db
refuse_stale s claim db stale = record {
  beat = λ now. never-ok (heartbeat now claim db) (λ (t, db') h.
      let (row, w) = heartbeat-writes now t claim db db' h in
      omega (arith, Owned-token claim db row w.before w.owned));
  failure = λ at error jitter.
      never-ok (transition_failure s at claim error jitter db) (λ (t, db') h.
        let (row, d, w, _) = transition_failure-writes s at claim error jitter t db db' h in
        omega (arith, Owned-token claim db row w.before w.owned));
  completion = λ now at source_updated expected foreign_rows.
      never-ok (complete_claim now at source_updated expected foreign_rows claim db) (λ (t, db') h.
        let (row, w) =
          complete_claim-writes now at source_updated expected foreign_rows t claim db db' h in
        omega (arith, Owned-token claim db row w.before w.owned));
}

-- Once a session was claimed again, with any operations in between, the earlier claim is refused by
-- the heartbeat, the failure transition and the completion, for good.
pub fenced :
    (s : ValidSettings) (db0 db1 db2 db3 db4 : Store) (clock clock' : Readings)
    (locked locked' : JobSession → Bool) (earlier later : Claim)
    → claim_next s clock locked db0 ≡ ok (some earlier, db1)
    → Steps s db1 db2
    → claim_next s clock' locked' db2 ≡ ok (some later, db3)
    → later.session_id ≡ earlier.session_id
    → Steps s db3 db4
    → Refused s earlier db4
fenced s db0 db1 db2 db3 db4 clock clock' locked locked' earlier later first between second same
      after =
    let old = claim_next-issued s clock db0 db1 locked earlier first in
    let new = claim_next-issued s clock' db2 db3 locked' later second in
    let n = earlier.session_id in
    refuse_stale s earlier db4 ground
      (arith, old.1, new.0, new.1, same, Steps-token between n, Steps-token after n)
