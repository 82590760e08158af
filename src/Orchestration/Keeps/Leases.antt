-- ===== src/Orchestration/Keeps/Leases.antt =====
-- The operations under a claim keep the invariant.
use formula1_dashboard.Common.{ℕ, ◌<◌, ◌≡◌, subst, Bool, Option, none, some, ok, arith, All}
use formula1_dashboard.Policy.Number.{Number}
use formula1_dashboard.Policy.Settings.{ValidSettings}
use formula1_dashboard.Budget.{Gate}
use formula1_dashboard.Failures.{ArchiveError, sanitize}
use formula1_dashboard.Store.{Store, JobSession, SessionIdentity, UniqueRows}
use formula1_dashboard.Store.Rows.{find_row-All}
use formula1_dashboard.Orchestration.Rows.{Claim}
use formula1_dashboard.Orchestration.Heartbeat.{heartbeat}
use formula1_dashboard.Orchestration.Failure.{
  Transition, Decision, decide, decide_retry, decide_pause, failed_row, pause_of,
  transition_failure,
}
use formula1_dashboard.Orchestration.Completion.{complete_claim, completed_row}
use formula1_dashboard.Orchestration.Aggregation.{Aggregation, aggregate}
use formula1_dashboard.Orchestration.Invariant.{IsBudgeted, Inv, Inv-write}
use formula1_dashboard.Orchestration.Owned.{Written}
use formula1_dashboard.Orchestration.Writes.{
  heartbeat-writes, complete_claim-writes, transition_failure-writes,
}

-- A write of owned rows keeps the invariant, if the row keeps to its budget.
pub Inv-Written :
    (limit : ℕ) (claim : Claim) (db db' : Store) (old new : JobSession)
    → Inv limit db
    → Written claim db db' old new
    → IsBudgeted limit new
    → Inv limit db'
Inv-Written limit claim db db' old new inv w fits =
    Inv-write limit db db' old new w.after inv (rw (w.same_job, w.same_session) w.owned.row_found)
      fits w.rows (rw w.same_session w.ingestions) ground
      (
        arith, w.together, w.owned.row_running, w.owned.ingestion_running, w.owned.ingestion_found,
        w.same_session,
      )

-- The row that a claim owns keeps to its budget.
owned-IsBudgeted :
    (limit : ℕ) (claim : Claim) (db db' : Store) (old new : JobSession)
    → Inv limit db
    → Written claim db db' old new
    → IsBudgeted limit old
owned-IsBudgeted limit claim db db' old new inv w =
    find_row-All (IsBudgeted limit) claim.job_id claim.session_id db.job_sessions old inv.budgeted
      w.owned.row_found

pub Inv-heartbeat :
    (limit now t : ℕ) (claim : Claim) (db db' : Store)
    → Inv limit db
    → heartbeat now claim db ≡ ok (t, db')
    → Inv limit db'
Inv-heartbeat limit now t claim db db' inv h =
    let (row, w) = heartbeat-writes now t claim db db' h in
    let fits =
      owned-IsBudgeted limit claim db db' row (record row { heartbeat_at = some now }) inv w in
    Inv-Written limit claim db db' row (record row { heartbeat_at = some now }) inv w
      (record { capped = fits.capped; claimable = fits.claimable; attempted = fits.attempted })

pub Inv-complete_claim :
    (limit now : ℕ) (at source_updated : Option ℕ) (expected : Option SessionIdentity)
    (foreign_rows : Bool) (t : ℕ) (claim : Claim) (db db' : Store)
    → Inv limit db
    → complete_claim now at source_updated expected foreign_rows claim db ≡ ok (t, db')
    → Inv limit db'
Inv-complete_claim limit now at source_updated expected foreign_rows t claim db db' inv h =
    let (row, w) =
      complete_claim-writes now at source_updated expected foreign_rows t claim db db' h in
    let fits = owned-IsBudgeted limit claim db db' row (completed_row t row) inv w in
    Inv-Written limit claim db db' row (completed_row t row) inv w
      (record { capped = fits.capped; claimable = λ e. absurd (cc); attempted = λ e. absurd (cc) })

-- A decision keeps to the budget of a running row.
decide-IsBudgeted :
    (s : ValidSettings) (at : ℕ) (claim : Claim) (error : ArchiveError) (jitter : Number)
    (row : JobSession) (pause gate : Option Gate) (d : Decision)
    → IsBudgeted s.max_attempts row
    → row.attempt_count ≡ claim.job_attempt_count
    → 0 < row.attempt_count
    → decide s at claim error jitter row pause gate ≡ ok d
    → IsBudgeted s.max_attempts (failed_row d (sanitize error) row)
unfolding decide decide_retry decide_pause
decide-IsBudgeted s at claim error jitter row none gate d fits same spent h = record {
  capped = ground (arith, fits.capped);
  claimable = ground (arith, fits.capped);
  attempted = ground (arith, fits.capped);
}
decide-IsBudgeted s at claim error jitter row (some pause) none d fits same spent h = cc
decide-IsBudgeted s at claim error jitter row (some pause) (some gate) d fits same spent h =
    record {
      capped = ground (arith, fits.capped);
      claimable = ground (arith, fits.capped);
      attempted = ground (arith, fits.capped);
    }

pub Inv-transition_failure :
    (s : ValidSettings) (at : ℕ) (claim : Claim) (error : ArchiveError) (jitter : Number)
    (t : Transition) (db db' : Store)
    → Inv s.max_attempts db
    → transition_failure s at claim error jitter db ≡ ok (t, db')
    → Inv s.max_attempts db'
Inv-transition_failure s at claim error jitter t db db' inv h =
    let (row, d, w, follows) = transition_failure-writes s at claim error jitter t db db' h in
    let fits =
      owned-IsBudgeted s.max_attempts claim db db' row (failed_row d (sanitize error) row) inv w in
    Inv-Written s.max_attempts claim db db' row (failed_row d (sanitize error) row) inv w (
      decide-IsBudgeted s at claim error jitter row (pause_of s at error) db.gate d fits
        w.owned.row_attempt (fits.attempted w.owned.row_running) follows.decided)

pub Inv-aggregate :
    (limit now id : ℕ) (a : Aggregation) (db db' : Store)
    → Inv limit db
    → aggregate now id db ≡ ok (a, db')
    → Inv limit db'
unfolding aggregate
Inv-aggregate limit now id a db db' inv h = record {
  unique = subst UniqueRows (ground arith) inv.unique;
  budgeted = subst (All (IsBudgeted limit)) (ground arith) inv.budgeted;
  exclusive = ground (arith, inv.exclusive);
}
