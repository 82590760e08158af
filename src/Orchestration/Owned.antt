-- ===== src/Orchestration/Owned.antt =====
-- The lease that a claim holds, and what an operation under it may write.
use formula1_dashboard.Common.{◌≤◌, ◌≡◌, true, some, ok, arith}
use formula1_dashboard.Store.{
  Store, JobSession, Ingestion, Status, running, is_running, find_row, put_row, update,
}
use formula1_dashboard.Store.Rows.{find_row-put_row}
use formula1_dashboard.Orchestration.Rows.{Claim, owned_row, owned_ingestion}

-- The rows that a claim owns.
pub record Owned (claim : Claim) (db : Store) (row : JobSession) (ingestion : Ingestion)
    : Type 0 where
  pub row_found : find_row claim.job_id claim.session_id db.job_sessions ≡ some row
  pub row_running : row.status ≡ running
  pub row_attempt : row.attempt_count ≡ claim.job_attempt_count
  pub ingestion_found : db.ingestions claim.session_id ≡ some ingestion
  pub ingestion_running : ingestion.status ≡ running
  pub ingestion_token : ingestion.attempt_count ≡ claim.session_attempt_token

is_running-eq : (x : Status) → is_running x ≡ true → x ≡ running
is_running-eq x h = ground arith

pub owned_row-Owned :
    (claim : Claim) (db : Store) (row : JobSession) (ingestion : Ingestion)
    → owned_row claim db ≡ ok row
    → owned_ingestion claim db ≡ ok ingestion
    → Owned claim db row ingestion
unfolding owned_row owned_ingestion
owned_row-Owned claim db row ingestion h k = record {
  row_found = ground arith;
  row_running = ground (arith, is_running-eq row.status);
  row_attempt = ground arith;
  ingestion_found = ground arith;
  ingestion_running = ground (arith, is_running-eq ingestion.status);
  ingestion_token = ground arith;
}

-- One row and the ingestion of its session, both owned, written together: they get one status, the
-- token of the ingestion stays, and the row's attempts do not grow.
pub record Written (claim : Claim) (db db' : Store) (old new : JobSession) : Type 0 where
  pub before : Ingestion
  pub after : Ingestion
  pub owned : Owned claim db old before
  pub same_job : new.job_id ≡ claim.job_id
  pub same_session : new.session_id ≡ claim.session_id
  pub rows : db'.job_sessions ≡ put_row new db.job_sessions
  pub ingestions : db'.ingestions ≡ update db.ingestions claim.session_id (some after)
  pub together : is_running new.status ≡ is_running after.status
  pub token_kept : after.attempt_count ≡ before.attempt_count
  pub attempts_kept : new.attempt_count ≤ old.attempt_count

-- The new row stands in the table.
pub Written-found :
    (claim : Claim) (db db' : Store) (old new : JobSession)
    → Written claim db db' old new
    → find_row claim.job_id claim.session_id db'.job_sessions ≡ some new
Written-found claim db db' old new w = rw w.rows ground (
  arith,
  find_row-put_row new claim.job_id claim.session_id db.job_sessions,
  w.same_job,
  w.same_session,
  w.owned.row_found,
)
