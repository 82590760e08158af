-- ===== src/Planning/Added.antt =====
-- Adding queued rows keeps the invariant of the job-sessions.
use formula1_dashboard.Common.{
  ℕ, ◌<◌, ◌≡◌, Option, none, some, List, [], ◌∷◌, ◌++◌, ok, arith, All, count, Outcome-cases, inl,
  inr,
}
use formula1_dashboard.Store.{Store, Job, JobSession, UniqueRows}
use formula1_dashboard.Store.Rows.{UniqueRows-append}
use formula1_dashboard.Orchestration.Invariant.{IsBudgeted, Inv, runs_session}
use formula1_dashboard.Planning.Eligibility.{Eligible}
use formula1_dashboard.Planning.Queue.{queued_session, newly_queued, add_sessions, queue_sessions}

All-append {ℓ} :
    (P : JobSession → Type ℓ) (new : JobSession) (rows : List JobSession)
    → All P rows
    → P new
    → All P (rows ++ (new ∷ []))
All-append P new [] a p = (p, tt)
All-append P new (x ∷ rows) a p = (a.0, All-append P new rows a.1 p)

count-append_queued :
    (n t j m : ℕ) (rows : List JobSession)
    → count (runs_session n) (rows ++ (queued_session t j m ∷ [])) ≡ count (runs_session n) rows
unfolding count
count-append_queued n t j m [] = ground arith
count-append_queued n t j m (x ∷ rows) = ground (arith, count-append_queued n t j m rows)

module _ (t j : ℕ) where
  add_sessions-UniqueRows :
      (ns : List ℕ) (rows rows' : List JobSession)
      → add_sessions t j ns rows ≡ ok rows'
      → UniqueRows rows
      → UniqueRows rows'
  unfolding add_sessions
  add_sessions-UniqueRows [] rows rows' h u = ground arith
  add_sessions-UniqueRows (n ∷ ns) rows rows' h u = ground (
    arith,
    UniqueRows-append (queued_session t j n) rows,
    add_sessions-UniqueRows ns (rows ++ (queued_session t j n ∷ [])) rows',
  )

  add_sessions-All :
      (limit : ℕ) (ns : List ℕ) (rows rows' : List JobSession)
      → 0 < limit
      → add_sessions t j ns rows ≡ ok rows'
      → All (IsBudgeted limit) rows
      → All (IsBudgeted limit) rows'
  unfolding add_sessions
  add_sessions-All limit [] rows rows' pos h u = ground arith
  add_sessions-All limit (n ∷ ns) rows rows' pos h u =
      let fits : IsBudgeted limit (queued_session t j n) = record {
        capped = omega arith;
        claimable = λ _. pos;
        attempted = λ e. ground arith;
      } in
      let both = All-append (IsBudgeted limit) (queued_session t j n) rows u fits in
      add_sessions-All limit ns (rows ++ (queued_session t j n ∷ [])) rows' pos (ground arith) both

  add_sessions-count :
      (m : ℕ) (ns : List ℕ) (rows rows' : List JobSession)
      → add_sessions t j ns rows ≡ ok rows'
      → count (runs_session m) rows' ≡ count (runs_session m) rows
  unfolding add_sessions
  add_sessions-count m [] rows rows' h = ground arith
  add_sessions-count m (n ∷ ns) rows rows' h = ground (
    arith,
    count-append_queued m t j n rows,
    add_sessions-count m ns (rows ++ (queued_session t j n ∷ [])) rows',
  )

-- The rows that a planning adds to the job-sessions, with ingestions and gate left as they are.
pub record Queued (db db' : Store) : Type 0 where
  pub queued_at : ℕ
  pub job : ℕ
  pub ids : List ℕ
  pub added : add_sessions queued_at job ids db.job_sessions ≡ ok db'.job_sessions
  pub ingestions : db'.ingestions ≡ db.ingestions
  pub gate : db'.gate ≡ db.gate

pub Inv-Queued :
    (limit : ℕ) (db db' : Store) → 0 < limit → Inv limit db → Queued db db' → Inv limit db'
Inv-Queued limit db db' pos inv q = record {
  unique =
      add_sessions-UniqueRows q.queued_at q.job q.ids db.job_sessions db'.job_sessions q.added
        inv.unique;
  budgeted =
      add_sessions-All q.queued_at q.job limit q.ids db.job_sessions db'.job_sessions pos q.added
        inv.budgeted;
  exclusive = λ n. ground (
    arith,
    add_sessions-count q.queued_at q.job n q.ids db.job_sessions db'.job_sessions q.added,
    inv.exclusive n,
    q.ingestions,
  );
}

pub queue_sessions-Queued :
    (t : ℕ) (o : Option Job) (rows : List Eligible) (db db' : Store) (ids : List ℕ)
    → queue_sessions t o rows db ≡ ok (ids, db')
    → Queued db db'
unfolding queue_sessions add_sessions
queue_sessions-Queued t none rows db db' ids h = record {
  queued_at = t;
  job = 0;
  ids = [];
  added = ground arith;
  ingestions = ground arith;
  gate = ground arith;
}
queue_sessions-Queued t (some job) rows db db' ids h =
    elim (Outcome-cases
      (add_sessions t job.id (newly_queued job.id db.job_sessions rows) db.job_sessions)) [
        | inr bad ↦ absurd (ground arith)
        | inl (after, e) ↦ record {
          queued_at = t;
          job = job.id;
          ids = newly_queued job.id db.job_sessions rows;
          added = ground arith;
          ingestions = ground arith;
          gate = ground arith;
        }
      ]
