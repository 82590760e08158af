-- ===== src/Planning/Errors.antt =====
-- What a planning raises where it does not give up.
use formula1_dashboard.Common.{
  ℕ, ◌≢◌, Bool, Option, none, some, List, [], ◌∷◌, ◌++◌, Outcome, ok, err, ◌>>=◌, arith,
}
use formula1_dashboard.Policy.Settings.{ValidSettings}
use formula1_dashboard.Freshness.{CoverageRefreshReason}
use formula1_dashboard.Store.{Store, Job, JobSession, Ingestion}
use formula1_dashboard.Planning.Catalogue.{
  Season, RaceSession, Catalogue, NormalizedScheduledSession, NormalizedScheduledEvent,
  NormalizedSeasonSchedule, PlanningError, coverage_changed,
}
use formula1_dashboard.Planning.Discovery.{
  persist_event, persist_session, persist_sessions, persist_events, persist_snapshot,
}
use formula1_dashboard.Planning.Eligibility.{
  Current, Eligible, archive_eligible, is_eligible, eligible_rows, active_job, current_sessions,
}
use formula1_dashboard.Planning.Queue.{
  PlanningInputs, reuse_or_create, add_sessions, queue_sessions, newly_queued, create_or_reuse_job,
  queued_session,
}

-- An outcome that is not the one of giving up.
abbrev pub GoesOn : {A : Type 0} → Outcome PlanningError A → Type 0
GoesOn m = m ≢ err coverage_changed

GoesOn-bind :
    {A B : Type 0} (m : Outcome PlanningError A) (k : A → Outcome PlanningError B)
    → GoesOn m
    → ((a : A) → GoesOn (k a))
    → GoesOn (m >>= k)
GoesOn-bind (err e) k f g h = f cc
GoesOn-bind (ok a) k f g h = g a h

persist_event-GoesOn :
    (year at : ℕ) (e : NormalizedScheduledEvent) (cat : Catalogue)
    → GoesOn (persist_event year at e cat)
unfolding persist_event
persist_event-GoesOn year at e cat h = ground arith

persist_session-GoesOn :
    (event at : ℕ) (x : NormalizedScheduledSession) (cat : Catalogue)
    → GoesOn (persist_session event at x cat)
unfolding persist_session
persist_session-GoesOn event at x cat h = ground arith

persist_sessions-GoesOn :
    (event at : ℕ) (xs : List NormalizedScheduledSession) (cat : Catalogue)
    → GoesOn (persist_sessions event at xs cat)
unfolding persist_sessions
persist_sessions-GoesOn event at [] cat = λ h. cc
persist_sessions-GoesOn event at (x ∷ xs) cat =
    GoesOn-bind (persist_session event at x cat) (λ next. persist_sessions event at xs next)
      (persist_session-GoesOn event at x cat) (λ next. persist_sessions-GoesOn event at xs next)

persist_events-GoesOn :
    (year at : ℕ) (es : List NormalizedScheduledEvent) (cat : Catalogue)
    → GoesOn (persist_events year at es cat)
unfolding persist_events
persist_events-GoesOn year at [] cat = λ h. cc
persist_events-GoesOn year at (e ∷ es) cat =
    GoesOn-bind (persist_event year at e cat)
      (λ placed.
        persist_sessions placed.0 at e.sessions placed.1 >>= λ next. persist_events year at es next)
      (persist_event-GoesOn year at e cat)
      (λ placed.
        GoesOn-bind (persist_sessions placed.0 at e.sessions placed.1)
          (λ next. persist_events year at es next)
          (persist_sessions-GoesOn placed.0 at e.sessions placed.1)
          (λ next. persist_events-GoesOn year at es next))

pub persist_snapshot-GoesOn :
    (t at valid_until : ℕ) (schedule : NormalizedSeasonSchedule) (cat : Catalogue)
    → GoesOn (persist_snapshot t at valid_until schedule cat)
unfolding persist_snapshot
persist_snapshot-GoesOn t at valid_until schedule cat h =
    ground (arith, persist_events-GoesOn schedule.season_year at schedule.events cat)

is_eligible-GoesOn :
    (s : ValidSettings) (now : ℕ) (active : Option Job) (x : RaceSession) (i : Option Ingestion)
    → GoesOn (is_eligible s now active x i)
unfolding is_eligible archive_eligible
is_eligible-GoesOn s now active x i h = ground arith

eligible_rows-GoesOn :
    (s : ValidSettings) (now : ℕ) (active : Option Job) (ingestions : ℕ → Option Ingestion)
    (cs : List Current)
    → GoesOn (eligible_rows s now active ingestions cs)
unfolding eligible_rows
eligible_rows-GoesOn s now active ingestions [] h = cc
eligible_rows-GoesOn s now active ingestions (c ∷ cs) h = ground (
  arith,
  is_eligible-GoesOn s now active c.race_session (ingestions c.race_session.id),
  eligible_rows-GoesOn s now active ingestions cs,
)

reuse_or_create-GoesOn :
    (t id year : ℕ) (reason : CoverageRefreshReason) (active : Option Job) (rows : List Eligible)
    (db : Store)
    → GoesOn (reuse_or_create t id year reason active rows db)
unfolding reuse_or_create
reuse_or_create-GoesOn t id year reason (some job) rows db h = cc
reuse_or_create-GoesOn t id year reason none [] db h = cc
reuse_or_create-GoesOn t id year reason none (row ∷ rows) db h = ground arith

add_sessions-GoesOn :
    (t job : ℕ) (ns : List ℕ) (rows : List JobSession) → GoesOn (add_sessions t job ns rows)
unfolding add_sessions
add_sessions-GoesOn t job [] rows h = cc
add_sessions-GoesOn t job (n ∷ ns) rows h =
    ground (arith, add_sessions-GoesOn t job ns (rows ++ (queued_session t job n ∷ [])))

queue_sessions-GoesOn :
    (t : ℕ) (o : Option Job) (rows : List Eligible) (db : Store)
    → GoesOn (queue_sessions t o rows db)
unfolding queue_sessions
queue_sessions-GoesOn t none rows db h = cc
queue_sessions-GoesOn t (some job) rows db h =
    ground (
      arith,
      add_sessions-GoesOn t job.id (newly_queued job.id db.job_sessions rows) db.job_sessions,
    )

pub create_or_reuse_job-GoesOn :
    (s : ValidSettings) (inputs : PlanningInputs) (season : Season) (reason : CoverageRefreshReason)
    (refreshed : Bool) (cat : Catalogue) (db : Store)
    → GoesOn (create_or_reuse_job s inputs season reason refreshed cat db)
unfolding create_or_reuse_job
create_or_reuse_job-GoesOn s inputs season reason refreshed cat db =
    let active = active_job season.year db.jobs db.job_ids in
    GoesOn-bind
      (eligible_rows s inputs.database_now active db.ingestions
        (current_sessions season cat.events cat.sessions))
      _
      (eligible_rows-GoesOn s inputs.database_now active db.ingestions
        (current_sessions season cat.events cat.sessions))
      (λ rows.
        GoesOn-bind
          (reuse_or_create inputs.transaction_at inputs.new_job_id season.year reason active rows
            db)
          _
          (reuse_or_create-GoesOn inputs.transaction_at inputs.new_job_id season.year reason active
            rows db)
          (λ placed.
            GoesOn-bind (queue_sessions inputs.transaction_at placed.0 rows placed.1) _
              (queue_sessions-GoesOn inputs.transaction_at placed.0 rows placed.1)
              (λ queued h. cc)))
