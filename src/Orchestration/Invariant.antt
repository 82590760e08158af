-- ===== src/Orchestration/Invariant.antt =====
-- What holds of the tables between two operations.
use formula1_dashboard.Common.{
  ℕ, ◌+◌, ◌≤◌, ◌<◌, ◌≡◌, Bool, Option, none, some, arith, All, count, ◌&&◌, ◌==◌,
}
use formula1_dashboard.Store.{
  Store, JobSession, Ingestion, pending, running, is_running, find_row, put_row, UniqueRows, update,
}
use formula1_dashboard.Store.Rows.{All-put_row, UniqueRows-put_row, find_row-key}
use formula1_dashboard.Store.Counts.{indicator, count-put_row}

-- A row never passes the attempts that the settings allow, can still be claimed while it is pending,
-- and has been attempted while it is running.
pub record IsBudgeted (limit : ℕ) (row : JobSession) : Type 0 where
  pub capped : row.attempt_count ≤ limit
  pub claimable : row.status ≡ pending → row.attempt_count < limit
  pub attempted : row.status ≡ running → 0 < row.attempt_count

abbrev pub runs_session : ℕ → JobSession → Bool
runs_session n row = is_running row.status && row.session_id == n

-- 1 where the ingestion is running, and 0 elsewhere.
abbrev pub running_ingestion : Option Ingestion → ℕ
running_ingestion none = 0
running_ingestion (some i) = indicator (is_running i.status)

pub record Inv (limit : ℕ) (db : Store) : Type 0 where
  pub unique : UniqueRows db.job_sessions
  pub budgeted : All (IsBudgeted limit) db.job_sessions
  pub exclusive :
      (n : ℕ) → count (runs_session n) db.job_sessions ≤ running_ingestion (db.ingestions n)

-- A row written back together with the ingestion of its session keeps the invariant, if the row keeps
-- to its budget and the two statuses change together.
pub Inv-write :
    (limit : ℕ) (db db' : Store) (old new : JobSession) (ingestion : Ingestion)
    → Inv limit db
    → find_row new.job_id new.session_id db.job_sessions ≡ some old
    → IsBudgeted limit new
    → db'.job_sessions ≡ put_row new db.job_sessions
    → db'.ingestions ≡ update db.ingestions new.session_id (some ingestion)
    → indicator (is_running new.status) + running_ingestion (db.ingestions new.session_id)
      ≤ indicator (is_running ingestion.status) + indicator (is_running old.status)
    → Inv limit db'
Inv-write limit db db' old new ingestion inv found fits rows ingestions together = record {
  unique = rw rows (UniqueRows-put_row new db.job_sessions inv.unique);
  budgeted = rw rows (All-put_row (IsBudgeted limit) new db.job_sessions fits inv.budgeted);
  exclusive = λ n.
      rw (rows, ingestions) ground
        (
          arith,
          count-put_row (runs_session n) new old db.job_sessions,
          inv.exclusive n,
          find_row-key new.job_id new.session_id db.job_sessions old,
        );
}
