-- ===== src/Planning/Replanning.antt =====
-- Planning a season again at the same time changes nothing.
use formula1_dashboard.Common.{
  ℕ, ◌≡◌, refl, subst, Bool, true, false, Option, none, some, List, [], ◌∷◌, ◌++◌, ok, arith, All,
  Outcome-cases, inl, inr,
}
use formula1_dashboard.Policy.Settings.{ValidSettings}
use formula1_dashboard.Freshness.{CoverageRefreshReason}
use formula1_dashboard.Store.{Store, Job, JobSession, Ingestion, is_active_for, update}
use formula1_dashboard.Planning.Catalogue.{Season, Catalogue}
use formula1_dashboard.Planning.Eligibility.{
  Current, Eligible, eligible_rows, active_job, current_sessions, request_reason,
}
use formula1_dashboard.Planning.Queue.{
  Plan, PlanningInputs, newly_queued, add_sessions, queue_sessions, reuse_or_create,
  create_or_reuse_job, new_job,
}
use formula1_dashboard.Planning.Writes.{Planned, create_or_reuse_job-Planned, Planned-Queued}
use formula1_dashboard.Planning.ActiveJobs.{queue_sessions-jobs}
use formula1_dashboard.Planning.Settling.{
  Settled, newly_queued-Settled, add_sessions-Settled, eligible_rows-Settled,
}

-- The query finds the job that was added.
active_job-append :
    (year id : ℕ) (jobs : ℕ → Option Job) (job : Job) (ids : List ℕ)
    → is_active_for year (some job) ≡ true
    → active_job year jobs ids ≡ none
    → active_job year (update jobs id (some job)) (ids ++ (id ∷ [])) ≡ some job
unfolding active_job
active_job-append year id jobs job [] a h = ground arith
active_job-append year id jobs job (k ∷ ids) a h =
    ground (arith, active_job-append year id jobs job ids)

-- After the choice of a job, the query finds it.
reuse_or_create-active :
    (t id year : ℕ) (reason : CoverageRefreshReason) (rows : List Eligible) (db mid : Store)
    (active placed : Option Job)
    → active_job year db.jobs db.job_ids ≡ active
    → reuse_or_create t id year reason active rows db ≡ ok (placed, mid)
    → active_job year mid.jobs mid.job_ids ≡ placed
unfolding reuse_or_create
reuse_or_create-active t id year reason rows db mid (some job) placed e h = ground arith
reuse_or_create-active t id year reason [] db mid none placed e h = ground arith
reuse_or_create-active t id year reason (row ∷ rows) db mid none placed e h = ground (
  arith,
  active_job-append year id db.jobs (new_job t id year (request_reason reason (row ∷ rows)))
      db.job_ids,
)

-- Where a job is active or no session is eligible, the tables stay as they are.
reuse_or_create-again :
    (t id year : ℕ) (reason : CoverageRefreshReason) (rows : List Eligible) (db : Store) (job : Job)
    → reuse_or_create t id year reason (some job) rows db ≡ ok (some job, db)
unfolding reuse_or_create
reuse_or_create-again t id year reason rows db job = refl

reuse_or_create-idle :
    (t id year : ℕ) (reason : CoverageRefreshReason) (db : Store)
    → reuse_or_create t id year reason none [] db ≡ ok (none, db)
unfolding reuse_or_create
reuse_or_create-idle t id year reason db = refl

queue_sessions-idle :
    (t : ℕ) (rows : List Eligible) (db : Store) → queue_sessions t none rows db ≡ ok ([], db)
unfolding queue_sessions
queue_sessions-idle t rows db = refl

queue_sessions-again :
    (t : ℕ) (job : Job) (rows : List Eligible) (db : Store)
    → All (Settled job.id db.job_sessions) rows
    → queue_sessions t (some job) rows db ≡ ok ([], db)
unfolding queue_sessions add_sessions
queue_sessions-again t job rows db a = rw (newly_queued-Settled job.id db.job_sessions rows a) refl

queue_sessions-Settled :
    (t : ℕ) (job : Job) (rows : List Eligible) (db db' : Store) (ids : List ℕ)
    → queue_sessions t (some job) rows db ≡ ok (ids, db')
    → All (Settled job.id db'.job_sessions) rows
unfolding queue_sessions
queue_sessions-Settled t job rows db db' ids h =
    elim (Outcome-cases
      (add_sessions t job.id (newly_queued job.id db.job_sessions rows) db.job_sessions)) [
        | inr bad ↦ absurd (ground arith)
        | inl (after, e) ↦
            let same : after ≡ db'.job_sessions = ground arith in
            subst (λ l. All (Settled job.id l) rows) same
              (add_sessions-Settled t job.id db.job_sessions after rows e)
      ]

module _ (s : ValidSettings) (now t id year : ℕ) (reason : CoverageRefreshReason)
    (ingestions : ℕ → Option Ingestion) (cs : List Current) (rows rows' : List Eligible)
    (db mid : Store) where
  -- The sessions that are eligible for the job found again are settled.
  eligible-Settled :
      (active : Option Job) (job : Job) (after : List JobSession)
      → reuse_or_create t id year reason active rows db ≡ ok (some job, mid)
      → eligible_rows s now active ingestions cs ≡ ok rows
      → eligible_rows s now (some job) ingestions cs ≡ ok rows'
      → All (Settled job.id after) rows
      → All (Settled job.id after) rows'
  unfolding reuse_or_create
  eligible-Settled (some j) job after h e e' a =
      let same : j ≡ job = ground arith in
      let one : rows ≡ rows' = ground arith in subst (All (Settled job.id after)) one a
  eligible-Settled none job after h e e' a =
      eligible_rows-Settled s now job.id after job ingestions cs rows rows' e e' a

  -- Without a job there was none, and nothing is eligible.
  no-job :
      (active : Option Job)
      → reuse_or_create t id year reason active rows db ≡ ok (none, mid)
      → eligible_rows s now active ingestions cs ≡ ok rows
      → eligible_rows s now none ingestions cs ≡ ok rows'
      → rows' ≡ []
  unfolding reuse_or_create
  no-job (some j) h e e' = absurd (ground arith)
  no-job none h e e' =
      elim (rows)
          as (λ r.
            reuse_or_create t id year reason none r db ≡ ok (none, mid) → r ≡ rows → rows' ≡ []) [
              | [] ↦ λ h' same. ground arith
              | row ∷ more ↦ λ h' same. absurd (ground arith)
            ]
        h refl

-- The answer of a planning that finds nothing to do.
pub record Unchanged (p p' : Plan) (db db' : Store) : Type 0 where
  pub queued : p'.newly_queued_session_ids ≡ []
  pub created : p'.job_created ≡ false
  pub job : p'.job_id ≡ p.job_id
  pub store : db' ≡ db

module _ (s : ValidSettings) (inputs inputs' : PlanningInputs) (season : Season)
    (reason reason' : CoverageRefreshReason) (refreshed refreshed' : Bool) (cat : Catalogue)
    (db db' db'' : Store) (p p' : Plan) where
  second-Unchanged :
      (d : Planned s inputs season reason cat db p db')
      (d' : Planned s inputs' season reason' cat db' p' db'') (placed : Option Job)
      → d.placed ≡ placed
      → inputs'.database_now ≡ inputs.database_now
      → active_job season.year db'.jobs db'.job_ids ≡ placed
      → db'.ingestions ≡ db.ingestions
      → Unchanged p p' db' db''
  second-Unchanged d d' none e now found same =
      let currents = current_sessions season cat.events cat.sessions in
      let sel : eligible_rows s inputs.database_now none db.ingestions currents ≡ ok d'.rows =
        cc (d'.selected, now, found, same) in
      let empty =
        no-job s inputs.database_now inputs.transaction_at inputs.new_job_id season.year reason
          db.ingestions currents d.rows d'.rows db d.mid (active_job season.year db.jobs db.job_ids)
          (cc (d.chosen, e)) d.selected sel in
      let chosen =
        reuse_or_create-idle inputs'.transaction_at inputs'.new_job_id season.year reason' db' in
      let ends : (none ≡ d'.placed) × (db' ≡ d'.mid) =
        let one = d'.chosen in ground (arith, one, chosen, found, empty) in
      let again = queue_sessions-idle inputs'.transaction_at d'.rows db' in
      record {
        queued = ground (arith, d'.queued, again, ends);
        created = ground (arith, d'.created, found, ends);
        job = ground (arith, d'.job_id, d.job_id, ends, e);
        store = ground (arith, d'.queued, again, ends);
      }
  second-Unchanged d d' (some job) e now found same =
      let currents = current_sessions season cat.events cat.sessions in
      let first =
        subst
          (λ o.
            queue_sessions inputs.transaction_at o d.rows d.mid
            ≡ ok (p.newly_queued_session_ids, db'))
          e d.queued in
      let a =
        queue_sessions-Settled inputs.transaction_at job d.rows d.mid db' p.newly_queued_session_ids
          first in
      let sel : eligible_rows s inputs.database_now (some job) db.ingestions currents ≡ ok d'.rows =
        cc (d'.selected, now, found, same) in
      let b =
        eligible-Settled s inputs.database_now inputs.transaction_at inputs.new_job_id season.year
          reason db.ingestions currents d.rows d'.rows db d.mid
          (active_job season.year db.jobs db.job_ids) job db'.job_sessions (cc (d.chosen, e))
          d.selected sel a in
      let again = queue_sessions-again inputs'.transaction_at job d'.rows db' b in
      let chosen =
        reuse_or_create-again inputs'.transaction_at inputs'.new_job_id season.year reason' d'.rows
          db' job in
      let ends : (some job ≡ d'.placed) × (db' ≡ d'.mid) =
        let one = d'.chosen in ground (arith, one, chosen, found) in
      record {
        queued = ground (arith, d'.queued, again, ends);
        created = ground (arith, d'.created, found);
        job = ground (arith, d'.job_id, d.job_id, ends, e);
        store = ground (arith, d'.queued, again, ends);
      }

  -- Where two plannings of one season succeed one after the other on the same catalogue and at the same
  -- time, the second one queues no session, makes no job, answers with the job of the first and leaves
  -- the tables as they are.
  pub planning_again :
      inputs'.database_now ≡ inputs.database_now
      → create_or_reuse_job s inputs season reason refreshed cat db ≡ ok (p, db')
      → create_or_reuse_job s inputs' season reason' refreshed' cat db' ≡ ok (p', db'')
      → Unchanged p p' db' db''
  planning_again now first second =
      let d = create_or_reuse_job-Planned s inputs season reason refreshed cat db p db' first in
      let d' =
        create_or_reuse_job-Planned s inputs' season reason' refreshed' cat db' p' db'' second in
      let kept =
        queue_sessions-jobs inputs.transaction_at d.placed d.rows d.mid db'
          p.newly_queued_session_ids d.queued in
      let active =
        reuse_or_create-active inputs.transaction_at inputs.new_job_id season.year reason d.rows db
          d.mid (active_job season.year db.jobs db.job_ids) d.placed refl d.chosen in
      let q = Planned-Queued d in
      second-Unchanged d d' d.placed refl now (cc (active, kept.0, kept.1)) q.ingestions
