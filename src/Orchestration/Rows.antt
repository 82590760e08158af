-- ===== src/Orchestration/Rows.antt =====
-- The row lookups that the operations share, and the claim that a worker holds.
use formula1_dashboard.Common.{ℕ, Outcome, ok, ◌>>=◌, ◌>>◌, guard, or_raise, ◌==◌, ◌&&◌}
use formula1_dashboard.Store.{
  Store, Job, JobSession, Ingestion, SessionIdentity, StoreError, session_not_found,
  claim_ownership, is_running, is_archive, find_row,
}

-- `ClaimedArchiveJobSession`.
pub record Claim : Type 0 where
  pub job_id : ℕ
  pub session_id : ℕ
  pub job_attempt_count : ℕ
  pub session_attempt_token : ℕ
  pub claimed_at : ℕ

-- `_get_job_session_for_update`.
unfoldable pub owned_row : Claim → Store → Outcome StoreError JobSession
owned_row claim db = do
  row ← or_raise claim_ownership (find_row claim.job_id claim.session_id db.job_sessions)
  guard (is_running row.status && row.attempt_count == claim.job_attempt_count) claim_ownership
  ok row

-- The job that a claim belongs to, which has to be running.
unfoldable pub running_job : ℕ → Store → Outcome StoreError Job
running_job id db = do
  job ← or_raise claim_ownership (db.jobs id)
  guard (is_running job.status) claim_ownership
  ok job

-- `_lock_target_session`.
unfoldable pub lock_session : ℕ → Store → Outcome StoreError SessionIdentity
lock_session id db = or_raise session_not_found (db.sessions id)

-- The ingestion that a claim owns: the archive's, running, at the claim's token.
unfoldable pub owned_ingestion : Claim → Store → Outcome StoreError Ingestion
owned_ingestion claim db = do
  ingestion ← or_raise claim_ownership (db.ingestions claim.session_id)
  guard
      (is_archive ingestion.source
        && is_running ingestion.status
        && ingestion.attempt_count == claim.session_attempt_token)
      claim_ownership
  ok ingestion
