-- ===== src/Orchestration/Dispositions.antt =====
-- Which failures end a job-session.
use formula1_dashboard.Common.{
  ℕ, ◌≡◌, ◌≢◌, ◌∙◌, sym, refl, ◌⊎◌, inl, inr, true, false, Option, none, some, ok, arith, ltb, ◌&&◌,
  ◌==◌, is_none, Bool-cases, Outcome-cases,
}
use formula1_dashboard.Policy.Number.{Number}
use formula1_dashboard.Policy.Settings.{ValidSettings}
use formula1_dashboard.Budget.{Gate}
use formula1_dashboard.Failures.{ArchiveError, terminal, classify_retry, sanitize}
use formula1_dashboard.Store.{Store, JobSession, Ingestion, pending, failed, find_row}
use formula1_dashboard.Store.Rows.{find_row-put_row}
use formula1_dashboard.Orchestration.Rows.{Claim}
use formula1_dashboard.Orchestration.Failure.{
  Transition, Decision, decide, decide_retry, decide_pause, pause_of, transition_failure,
  is_retryable, retry_at, failed_row, failed_ingestion,
}
use formula1_dashboard.Orchestration.Owned.{Written-found}
use formula1_dashboard.Orchestration.Writes.{transition_failure-writes}

-- Every error that pauses the requests is one that is retried.
pause_of-retryable :
    (s : ValidSettings) (at : ℕ) (e : ArchiveError)
    → is_retryable (classify_retry e) ≡ false
    → is_none (pause_of s at e) ≡ true
unfolding pause_of classify_retry
pause_of-retryable s at e h = ground arith

decide-open :
    (s : ValidSettings) (at : ℕ) (claim : Claim) (error : ArchiveError) (jitter : Number)
    (row : JobSession) (pause gate : Option Gate) (d : Decision)
    → decide s at claim error jitter row pause gate ≡ ok d
    → ((d.status ≡ failed) × (d.next_retry_at ≡ none))
      ⊎ ((d.status ≡ pending) × ((until : ℕ) × (d.next_retry_at ≡ some until)))
unfolding decide decide_retry decide_pause
decide-open s at claim error jitter row none gate d h =
    elim (Bool-cases
      (is_retryable (classify_retry error) && ltb claim.job_attempt_count s.max_attempts)) [
        | inr over ↦ inl (ground arith, ground arith)
        | inl left ↦ elim (Outcome-cases (retry_at s at claim.job_attempt_count jitter)) [
          | inr bad ↦ absurd (ground arith)
          | inl (until, e) ↦ inr (ground arith, (until, ground arith))
        ]
      ]
decide-open s at claim error jitter row (some p) none d h = absurd (cc)
decide-open s at claim error jitter row (some p) (some g) d h =
    inr (ground arith, (p.next_request_at, ground arith))

decide-over :
    (s : ValidSettings) (at : ℕ) (claim : Claim) (error : ArchiveError) (jitter : Number)
    (row : JobSession) (pause gate : Option Gate) (d : Decision)
    → decide s at claim error jitter row pause gate ≡ ok d
    → is_retryable (classify_retry error) ≡ false
    → is_none pause ≡ true
    → d.status ≡ failed
unfolding decide decide_retry
decide-over s at claim error jitter row none gate d h ends free = ground arith
decide-over s at claim error jitter row (some p) gate d h ends free = absurd (ground arith)

-- What a failure transition leaves in the tables, as its answer says it: one row of the job-session and
-- one of the ingestion, with the status, the time of the retry and the error of the answer and no
-- heartbeat; and every other job-session and ingestion as it was.
pub record Settled (claim : Claim) (t : Transition) (db db' : Store) : Type 0 where
  pub row : JobSession
  pub row_found : find_row claim.job_id claim.session_id db'.job_sessions ≡ some row
  pub row_status : row.status ≡ t.status
  pub row_retry : row.next_retry_at ≡ t.next_retry_at
  pub row_error : row.last_error_code ≡ some t.failure.code
  pub row_still : row.heartbeat_at ≡ none
  pub ingestion : Ingestion
  pub ingestion_found : db'.ingestions claim.session_id ≡ some ingestion
  pub ingestion_status : ingestion.status ≡ t.status
  pub ingestion_retry : ingestion.next_retry_at ≡ t.next_retry_at
  pub ingestion_error : ingestion.last_error_code ≡ some t.failure.code
  pub ingestion_still : ingestion.heartbeat_at ≡ none
  pub other_rows :
      (job session : ℕ)
      → (claim.job_id == job && claim.session_id == session) ≡ false
      → find_row job session db'.job_sessions ≡ find_row job session db.job_sessions
  pub other_ingestions :
      (session : ℕ) → claim.session_id ≢ session → db'.ingestions session ≡ db.ingestions session

pub transition_failure-Settled :
    (s : ValidSettings) (at : ℕ) (claim : Claim) (error : ArchiveError) (jitter : Number)
    (t : Transition) (db db' : Store)
    → transition_failure s at claim error jitter db ≡ ok (t, db')
    → Settled claim t db db'
      × (((t.status ≡ failed) × (t.next_retry_at ≡ none))
          ⊎ ((t.status ≡ pending) × ((until : ℕ) × (t.next_retry_at ≡ some until))))
transition_failure-Settled s at claim error jitter t db db' h =
    let (row, d, w, follows) = transition_failure-writes s at claim error jitter t db db' h in
    let new = failed_row d (sanitize error) row in
    (
      record {
        row = new;
        row_found = Written-found claim db db' row new w;
        row_status = sym follows.status;
        row_retry = sym follows.retry;
        row_error = ground (arith, follows.reported);
        row_still = refl;
        ingestion = failed_ingestion d (sanitize error) follows.ingestion;
        ingestion_found = rw follows.ingestions ground arith;
        ingestion_status = sym follows.status;
        ingestion_retry = sym follows.retry;
        ingestion_error = ground (arith, follows.reported);
        ingestion_still = refl;
        other_rows = λ job session other.
            rw w.rows ground
              (arith, find_row-put_row new job session db.job_sessions, w.same_job, w.same_session);
        other_ingestions = λ session other. rw follows.ingestions ground arith;
      },
      rw (follows.status, follows.retry)
          (decide-open s at claim error jitter row (pause_of s at error) db.gate d follows.decided),
    )

transition-disposition :
    (s : ValidSettings) (at : ℕ) (claim : Claim) (error : ArchiveError) (jitter : Number)
    (t : Transition) (db db' : Store)
    → transition_failure s at claim error jitter db ≡ ok (t, db')
    → t.disposition ≡ classify_retry error
unfolding transition_failure
transition-disposition s at claim error jitter t db db' h = ground arith

-- A failure transition that answers with the terminal disposition ends both the job-session and the
-- ingestion of its session as failed in the tables, with no retry: no error both pauses the requests
-- and is terminal.
pub terminal_fails :
    (s : ValidSettings) (at : ℕ) (claim : Claim) (error : ArchiveError) (jitter : Number)
    (t : Transition) (db db' : Store)
    → transition_failure s at claim error jitter db ≡ ok (t, db')
    → t.disposition ≡ terminal
    → ((row : JobSession) × (find_row claim.job_id claim.session_id db'.job_sessions ≡ some row)
        × (row.status ≡ failed)
        × (row.next_retry_at ≡ none))
      × ((ingestion : Ingestion) × (db'.ingestions claim.session_id ≡ some ingestion)
          × (ingestion.status ≡ failed)
          × (ingestion.next_retry_at ≡ none))
terminal_fails s at claim error jitter t db db' h ends =
    let (row, d, w, follows) = transition_failure-writes s at claim error jitter t db db' h in
    let (settled, outcome) = transition_failure-Settled s at claim error jitter t db db' h in
    let kind = transition-disposition s at claim error jitter t db db' h in
    let final : is_retryable (classify_retry error) ≡ false = ground arith in
    let over =
      follows.status
      ∙ decide-over s at claim error jitter row (pause_of s at error) db.gate d follows.decided
          final (pause_of-retryable s at error final) in
    let retry : t.next_retry_at ≡ none = ground arith in
    (
      (settled.row, settled.row_found, settled.row_status ∙ over, settled.row_retry ∙ retry),
      (
        settled.ingestion,
        settled.ingestion_found,
        settled.ingestion_status ∙ over,
        settled.ingestion_retry ∙ retry,
      ),
    )
