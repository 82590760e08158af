-- ===== src/Planning/ActiveJobs.antt =====
-- A season has at most one active job: what the index `uq_backfill_jobs_active_season` demands.
use formula1_dashboard.Common.{
  ℕ, ◌≡◌, refl, true, false, Option, none, some, List, [], ◌∷◌, ◌++◌, ok, arith, ◌==◌, any, is_none,
  Bool-cases, inl, inr, sym, ◌∙◌, ◌||◌, subst,
}
use formula1_dashboard.Policy.Settings.{ValidSettings}
use formula1_dashboard.Freshness.{CoverageRefreshReason}
use formula1_dashboard.Store.{Store, Job, is_active_for}
use formula1_dashboard.Orchestration.Narrows.{Narrows}
use formula1_dashboard.Orchestration.Narrows.{
  heartbeat-Narrows, complete_claim-Narrows, transition_failure-Narrows, aggregate-Narrows,
  claim_next-Narrows, recover_stale-Narrows,
}
use formula1_dashboard.Orchestration.Steps.{
  Step, Steps, claims, beats, fails, completes, recovers, aggregates, plans, done, step,
}
use formula1_dashboard.Planning.Eligibility.{Eligible, active_job}
use formula1_dashboard.Planning.Queue.{Plan, PlanningInputs, reuse_or_create, queue_sessions}
use formula1_dashboard.Planning.Ensure.{World}
use formula1_dashboard.Planning.Writes.{PlannedOnce, plan_once-PlannedOnce}

-- The keys of the jobs are listed, and no two jobs of one season are active.
pub record OneActive (db : Store) : Type 0 where
  pub listed : (id : ℕ) → is_none (db.jobs id) ≡ false → any (λ k. k == id) db.job_ids ≡ true
  pub single :
      (year a b : ℕ)
      → is_active_for year (db.jobs a) ≡ true
      → is_active_for year (db.jobs b) ≡ true
      → a ≡ b

pub OneActive-Narrows : (db db' : Store) → Narrows db db' → OneActive db → OneActive db'
OneActive-Narrows db db' n one = record {
  listed = λ id there. rw n.ids (one.listed id (sym (n.each id).kept ∙ there));
  single =
      λ year a b x y. one.single year a b ((n.each a).narrow year x) ((n.each b).narrow year y);
}

-- The query finds no active job only where there is none.
active_job-none :
    (year : ℕ) (jobs : ℕ → Option Job) (ids : List ℕ) (id : ℕ)
    → active_job year jobs ids ≡ none
    → any (λ k. k == id) ids ≡ true
    → is_active_for year (jobs id) ≡ false
unfolding active_job any
active_job-none year jobs [] id h there = ground arith
active_job-none year jobs (k ∷ ids) id h there = ground (arith, active_job-none year jobs ids id)

any-append :
    (id new : ℕ) (ids : List ℕ)
    → any (λ k. k == id) (ids ++ (new ∷ [])) ≡ (any (λ k. k == id) ids || (new == id))
unfolding any
any-append id new [] = ground arith
any-append id new (k ∷ ids) = ground (arith, any-append id new ids)

no-active :
    (db : Store) (year : ℕ) (id : ℕ)
    → OneActive db
    → active_job year db.jobs db.job_ids ≡ none
    → is_active_for year (db.jobs id) ≡ false
no-active db year id one h = elim (Bool-cases (is_none (db.jobs id))) [
  | inl missing ↦ ground arith
  | inr there ↦ active_job-none year db.jobs db.job_ids id h (one.listed id there)
]

module _ (t id year : ℕ) (reason : CoverageRefreshReason) (rows : List Eligible) (db mid : Store)
    (placed : Option Job) where
  create-OneActive :
      (row : Eligible)
      → OneActive db
      → active_job year db.jobs db.job_ids ≡ none
      → reuse_or_create t id year reason none (row ∷ rows) db ≡ ok (placed, mid)
      → OneActive mid
  unfolding reuse_or_create
  create-OneActive row one idle h = record {
    listed = λ k there. ground (arith, any-append k id db.job_ids, one.listed k);
    single = λ y a b x z.
        ground (arith, one.single y a b, no-active db year a one, no-active db year b one);
  }

reuse_or_create-OneActive :
    (t id year : ℕ) (reason : CoverageRefreshReason) (rows : List Eligible) (db mid : Store)
    (active placed : Option Job)
    → OneActive db
    → active_job year db.jobs db.job_ids ≡ active
    → reuse_or_create t id year reason active rows db ≡ ok (placed, mid)
    → OneActive mid
unfolding reuse_or_create
reuse_or_create-OneActive t id year reason rows db mid (some job) placed one e h =
    let same : db ≡ mid = ground arith in subst OneActive same one
reuse_or_create-OneActive t id year reason [] db mid none placed one e h =
    let same : db ≡ mid = ground arith in subst OneActive same one
reuse_or_create-OneActive t id year reason (row ∷ rows) db mid none placed one e h =
    create-OneActive t id year reason rows db mid placed row one e h

pub queue_sessions-jobs :
    (t : ℕ) (o : Option Job) (rows : List Eligible) (db db' : Store) (ids : List ℕ)
    → queue_sessions t o rows db ≡ ok (ids, db')
    → (db'.jobs ≡ db.jobs) × (db'.job_ids ≡ db.job_ids)
unfolding queue_sessions
queue_sessions-jobs t none rows db db' ids h = ground arith
queue_sessions-jobs t (some job) rows db db' ids h = ground arith

pub OneActive-PlannedOnce :
    (s : ValidSettings) (inputs : PlanningInputs) (world : World) (p : Plan) (world' : World)
    → OneActive world.store
    → PlannedOnce s inputs world p world'
    → OneActive world'.store
OneActive-PlannedOnce s inputs world p world' one w =
    let d = w.planned in
    let start : OneActive w.start = record {
      listed = rw (w.same_jobs, w.same_ids) one.listed;
      single = rw w.same_jobs one.single;
    } in
    let mid =
      reuse_or_create-OneActive inputs.transaction_at inputs.new_job_id w.season.year w.reason
        d.rows w.start d.mid (active_job w.season.year w.start.jobs w.start.job_ids) d.placed start
        refl d.chosen in
    let same =
      queue_sessions-jobs inputs.transaction_at d.placed d.rows d.mid world'.store
        p.newly_queued_session_ids d.queued in
    record { listed = rw (same.0, same.1) mid.listed; single = rw same.0 mid.single }

Step-OneActive : {s : ValidSettings} {db db' : Store} → Step s db db' → OneActive db → OneActive db'
Step-OneActive {s} {db} {db'} (claims clock locked r h) one =
    OneActive-Narrows db db' (claim_next-Narrows s clock db db' locked r h) one
Step-OneActive {s} {db} {db'} (beats now t claim h) one =
    OneActive-Narrows db db' (heartbeat-Narrows now t claim db db' h) one
Step-OneActive {s} {db} {db'} (fails at claim error jitter t h) one =
    OneActive-Narrows db db' (transition_failure-Narrows s at claim error jitter t db db' h) one
Step-OneActive {s} {db} {db'} (completes now at source_updated expected foreign_rows t claim h)
      one =
    OneActive-Narrows db db'
      (complete_claim-Narrows now at source_updated expected foreign_rows t claim db db' h) one
Step-OneActive {s} {db} {db'} (recovers env batch_size leases h) one =
    OneActive-Narrows db db' (recover_stale-Narrows s env batch_size db db' leases h) one
Step-OneActive {s} {db} {db'} (aggregates now id a h) one =
    OneActive-Narrows db db' (aggregate-Narrows now id a db db' h) one
Step-OneActive {s} {db} {db'} (plans utc_year year inputs loaded cat cat' p pos h) one =
    let world : World = record { catalogue = cat; store = db } in
    let world' : World = record { catalogue = cat'; store = db' } in
    OneActive-PlannedOnce s inputs world p world' one
      (plan_once-PlannedOnce s inputs world p world' utc_year year loaded h)

-- Where the keys of the jobs are listed and every season has at most one active job, this still holds
-- after every sequence of operations, plannings included.
pub Steps-OneActive :
    {s : ValidSettings} {db db' : Store} → OneActive db → Steps s db db' → OneActive db'
Steps-OneActive one done = one
Steps-OneActive one (step first more) = Steps-OneActive (Step-OneActive first one) more
