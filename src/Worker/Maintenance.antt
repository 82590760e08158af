-- ===== src/Worker/Maintenance.antt =====
-- `perform_worker_maintenance`.
use formula1_dashboard.Common.{
  ℕ, ◌+◌, Bool, Option, none, some, List, [], ◌∷◌, Outcome, ok, err, ltb, ◌==◌, ◌&&◌, ◌||◌,
  if◌then◌else◌,
}
use formula1_dashboard.Policy.Settings.{ValidSettings}
use formula1_dashboard.Store.{Store, Job, StoreError, is_active}
use formula1_dashboard.Orchestration.Recovery.{RecoveredLease, Environment, recover_stale}
use formula1_dashboard.Orchestration.Aggregation.{Aggregation, aggregate}

-- `WorkerMaintenanceSummary`, its telemetry count apart.
pub record MaintenanceSummary : Type 0 where
  pub recovered : List RecoveredLease
  pub aggregations : List Aggregation

-- `ORDER BY requested_at, id`.
unfoldable pub requested_before : Job → Job → Bool
requested_before a b =
    ltb a.requested_at b.requested_at || (a.requested_at == b.requested_at && ltb a.id b.id)

unfoldable pub insert_job : Job → List Job → List Job
unfolding requested_before
insert_job job [] = job ∷ []
insert_job job (x ∷ xs) =
    let rest = insert_job job xs in if requested_before job x then job ∷ x ∷ xs else x ∷ rest

abbrev insert_active : Option Job → List Job → List Job
insert_active none rest = rest
insert_active (some job) rest = if is_active job.status then insert_job job rest else rest

-- The query for the active jobs.
unfoldable pub active_jobs : (ℕ → Option Job) → List ℕ → List Job
unfolding insert_job
active_jobs jobs [] = []
active_jobs jobs (id ∷ ids) = insert_active (jobs id) (active_jobs jobs ids)

-- `others k` is what the other sessions make of the tables before the transaction `k`.
module _ (others : ℕ → Store → Store) where
  -- The loop over the jobs; the clock of the aggregation is read in each round.
  unfoldable pub aggregate_jobs :
      (ℕ → ℕ) → ℕ → List Job → Store → Store × Outcome StoreError (List Aggregation)
  unfolding aggregate
  aggregate_jobs clock round [] db = (db, ok [])
  aggregate_jobs clock round (job ∷ jobs) db =
      let found = others round db in
      elim (aggregate (clock round) job.id found) [
        | err e ↦ (found, err e)
        | ok (a, db') ↦
            let (after, rest) = aggregate_jobs clock (round + 1) jobs db' in
            elim rest [ err e ↦ (after, err e) | ok more ↦ (after, ok (a ∷ more)) ]
      ]

  unfoldable pub perform_maintenance :
      ValidSettings
      → Environment
      → ℕ
      → (ℕ → ℕ)
      → Store
      → Store × Outcome StoreError MaintenanceSummary
  unfolding recover_stale active_jobs aggregate_jobs
  perform_maintenance s env batch_size clock db = elim (recover_stale s env batch_size db) [
    | err e ↦ (db, err e)
    | ok (leases, db') ↦
        let found = others 0 db' in
        let (after, rest) = aggregate_jobs clock 1 (active_jobs found.jobs found.job_ids) found in
        elim rest [
          | err e ↦ (after, err e)
          | ok aggregations ↦
              (after, ok (record { recovered = leases; aggregations = aggregations }))
        ]
  ]
