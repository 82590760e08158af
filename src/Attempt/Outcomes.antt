-- ===== src/Attempt/Outcomes.antt =====
-- How an attempt ends in the ingestion table.
use formula1_dashboard.Common.{
  ℕ, ◌≡◌, ◌≢◌, refl, true, none, some, Outcome, ok, err, arith, Option-cases, inl, inr,
}
use formula1_dashboard.Failures.{ArchiveError, sanitize}
use formula1_dashboard.Store.{
  Store, Ingestion, SessionIdentity, already_running, failed, is_running, is_archive, update,
}
use formula1_dashboard.Orchestration.Rows.{lock_session}
use formula1_dashboard.Attempt.{
  new_ingestion, check_idle, started_row, given_up, mark_pending, mark_running, mark_failed,
  record_failure, run_started, run_attempt, raised,
}

-- What a started attempt leaves in the table.
record Started (session attempt : ℕ) (db : Store) : Type 0 where
  target : SessionIdentity
  target_found : db.sessions session ≡ some target
  ingestion : Ingestion
  found : db.ingestions session ≡ some ingestion
  archive : is_archive ingestion.source ≡ true
  live : is_running ingestion.status ≡ true
  token : ingestion.attempt_count ≡ attempt

mark_running-Started :
    (session at n : ℕ) (db db' : Store)
    → mark_running session at db ≡ ok (n, db')
    → Started session n db'
unfolding mark_running lock_session check_idle started_row new_ingestion
mark_running-Started session at n db db' h = elim (Option-cases (db.sessions session)) [
  | inl e ↦ absurd (ground arith)
  | inr (target, e) ↦ elim (Option-cases (db.ingestions session)) [
    | inl e' ↦ record {
      target = target;
      target_found = ground arith;
      ingestion = started_row session at none;
      found = ground arith;
      archive = refl;
      live = refl;
      token = ground arith;
    }
    | inr (i, e') ↦ record {
      target = target;
      target_found = ground arith;
      ingestion = started_row session at (some i);
      found = ground arith;
      archive = ground arith;
      live = refl;
      token = ground arith;
    }
  ]
]

-- Between the start of an attempt and its end, the session can neither be started again nor be set
-- back to pending: both are refused as already running.
pub started_excludes :
    (session at later n : ℕ) (db db' : Store)
    → mark_running session at db ≡ ok (n, db')
    → (mark_running session later db' ≡ err already_running)
      × (mark_pending session db' ≡ err already_running)
unfolding mark_running mark_pending lock_session check_idle
started_excludes session at later n db db' h =
    let st = mark_running-Started session at n db db' h in
    (
      ground (arith, st.target_found, st.found, st.archive, st.live),
      ground (arith, st.target_found, st.found, st.archive, st.live),
    )

module _ {A : Type 0} (ingest : Store → Store × Outcome ArchiveError A) where
  -- When the ingestion of a started attempt fails and rolls back what it wrote, the error is raised.
  -- The table then shows the session's ingestion as failed, with the number of the attempt, the fixed
  -- code and message of the error and no retry; the other ingestions and the job-sessions are as they
  -- were.
  pub failure_recorded :
      (session at n : ℕ) (e : ArchiveError) (db db' : Store)
      → mark_running session at db ≡ ok (n, db')
      → ingest db' ≡ (db', err e)
      → (after : Store) × (i : Ingestion) × (run_attempt ingest session at db
          ≡ (after, err (raised e)))
        × (after.ingestions session ≡ some i)
        × (i.status ≡ failed)
        × (i.attempt_count ≡ n)
        × (i.last_error_code ≡ some (sanitize e).code)
        × (i.last_error_message ≡ some (sanitize e).message)
        × (i.next_retry_at ≡ none)
        × ((other : ℕ) → session ≢ other → after.ingestions other ≡ db.ingestions other)
        × (after.job_sessions ≡ db.job_sessions)
  unfolding run_attempt run_started record_failure mark_failed mark_running lock_session
  failure_recorded session at n e db db' h k =
      let st = mark_running-Started session at n db db' h in
      (
        record db' {
          ingestions = update db'.ingestions session (some (given_up (sanitize e) st.ingestion));
        },
        given_up (sanitize e) st.ingestion,
        ground (arith, st.target_found, st.found, st.archive, st.live, st.token),
        ground arith,
        refl,
        st.token,
        refl,
        refl,
        refl,
        λ other apart. ground arith,
        ground arith,
      )
