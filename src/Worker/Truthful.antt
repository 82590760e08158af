-- ===== src/Worker/Truthful.antt =====
-- The outcome that a worker answers is one that the tables showed.
use formula1_dashboard.Common.{◌≡◌, some}
use formula1_dashboard.Policy.Settings.{ValidSettings}
use formula1_dashboard.Store.{Store, JobSession, Ingestion, Status, find_row}
use formula1_dashboard.Orchestration.Rows.{Claim}
use formula1_dashboard.Orchestration.Steps.{Steps}
use formula1_dashboard.Worker.Process.{
  SessionOutcome, completed, retry_pending, failed, ownership_lost, Processed,
}

-- The job-session of a claim and the ingestion of its session have a status.
pub record HasStatus (claim : Claim) (db : Store) (status : Status) : Type 0 where
  pub row : JobSession
  pub row_found : find_row claim.job_id claim.session_id db.job_sessions ≡ some row
  pub row_status : row.status ≡ status
  pub ingestion : Ingestion
  pub ingestion_found : db.ingestions claim.session_id ≡ some ingestion
  pub ingestion_status : ingestion.status ≡ status

-- What the tables show under an outcome; the loss of the ownership says nothing of them.
abbrev pub Shows : SessionOutcome → Claim → Store → Type 0
Shows completed claim db = HasStatus claim db Status.completed
Shows retry_pending claim db = HasStatus claim db Status.pending
Shows failed claim db = HasStatus claim db Status.failed
Shows ownership_lost claim db = Unit

-- The answer of a worker, and the moment at which the tables showed it.
pub record Witnessed (s : ValidSettings) (db db' : Store) (p : Processed) : Type 0 where
  pub at : Store
  pub before : Steps s db at
  pub shows : Shows p.outcome p.claim at
  pub after : Steps s at db'
