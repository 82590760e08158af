-- ===== src/Worker/Covered.antt =====
-- The aggregations of a maintenance are those of the active jobs.
use formula1_dashboard.Common.{ℕ, ◌≡◌, Bool, false, Option, none, some}
use formula1_dashboard.Policy.Number.{Number}
use formula1_dashboard.Store.{Store, Job, is_active}
use formula1_dashboard.Orchestration.Aggregation.{Aggregation}

-- Every job stands under its own id.
abbrev pub IsKeyed : Store → Type 0
IsKeyed db = (id : ℕ) (job : Job) → db.jobs id ≡ some job → job.id ≡ id

-- Whether a job is there and active.
abbrev pub is_active_job : Option Job → Bool
is_active_job none = false
is_active_job (some job) = is_active job.status
