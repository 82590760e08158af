-- ===== src/Orchestration/Heartbeat.antt =====
-- `heartbeat_archive_job_session`.
use formula1_dashboard.Common.{ℕ, not, some, Outcome, ok, ◌>>=◌, ◌>>◌, guard}
use formula1_dashboard.Store.{Store, StoreError, transaction_open, update, put_row}
use formula1_dashboard.Orchestration.Rows.{Claim, owned_row, running_job, owned_ingestion}

-- The answer is the time of the heartbeat.
unfoldable pub heartbeat : ℕ → Claim → Store → Outcome StoreError (ℕ × Store)
unfolding owned_row running_job owned_ingestion
heartbeat now claim db = do
  guard (not db.in_transaction) transaction_open
  row ← owned_row claim db
  job ← running_job claim.job_id db
  ingestion ← owned_ingestion claim db
  ok (
    now,
    record db {
      jobs = update db.jobs claim.job_id (some (record job { heartbeat_at = some now }));
      job_sessions = put_row (record row { heartbeat_at = some now }) db.job_sessions;
      ingestions =
          update db.ingestions claim.session_id
            (some (record ingestion { heartbeat_at = some now }));
    },
  )
