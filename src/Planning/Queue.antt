-- ===== src/Planning/Queue.antt =====
-- `_create_or_reuse_job`: the job of the season and the sessions queued in it.
use formula1_dashboard.Common.{
  ℕ, Bool, not, Option, none, some, List, [], ◌∷◌, ◌++◌, map, Outcome, ok, ◌>>=◌, ◌>>◌, guard, ltb,
  ◌==◌, ◌&&◌, ◌||◌, if◌then◌else◌, is_none,
}
use formula1_dashboard.Policy.Settings.{ValidSettings}
use formula1_dashboard.Freshness.{CoverageRefreshReason}
use formula1_dashboard.Store.{
  Store, Job, JobSession, Status, pending, RequestReason, update, find_row,
}
use formula1_dashboard.Planning.Catalogue.{
  Season, DeferredSeasonEvent, DeferredFutureEvent, Catalogue, PlanningError, unique_violation,
}
use formula1_dashboard.Planning.Eligibility.{
  Eligible, same_instant, current_sessions, active_job, is_ingesting, eligible_rows, request_reason,
}

-- `SeasonBackfillPlan`.
pub record Plan : Type 0 where
  pub season_year : ℕ
  pub coverage_reason : CoverageRefreshReason
  pub coverage_refreshed : Bool
  pub coverage_checked_at : Option ℕ
  pub coverage_valid_until : Option ℕ
  pub job_id : Option ℕ
  pub job_status : Option Status
  pub job_created : Bool
  pub eligible_session_ids : List ℕ
  pub newly_queued_session_ids : List ℕ
  pub deferred_future_events : List DeferredFutureEvent

-- The row of a new job, with the defaults of the table.
abbrev pub new_job : ℕ → ℕ → ℕ → RequestReason → Job
new_job transaction_at id year reason = record {
  id = id;
  season_year = year;
  status = pending;
  request_reason = reason;
  requested_at = transaction_at;
  started_at = none;
  heartbeat_at = none;
  completed_at = none;
  last_error_code = none;
  last_error_message = none;
}

-- The active job, made where there is none and some session is eligible. The primary key of the table
-- refuses an id that is taken.
unfoldable pub reuse_or_create :
    ℕ
    → ℕ
    → ℕ
    → CoverageRefreshReason
    → Option Job
    → List Eligible
    → Store
    → Outcome PlanningError (Option Job × Store)
unfolding request_reason
reuse_or_create transaction_at new_id year reason (some job) rows db = ok (some job, db)
reuse_or_create transaction_at new_id year reason none [] db = ok (none, db)
reuse_or_create transaction_at new_id year reason none (row ∷ rows) db = do
  guard (is_none (db.jobs new_id)) unique_violation
  let job = new_job transaction_at new_id year (request_reason reason (row ∷ rows))
  ok (
    some job,
    record db { job_ids = db.job_ids ++ (new_id ∷ []); jobs = update db.jobs new_id (some job) },
  )

-- The row of a queued session, with the defaults of the table.
abbrev pub queued_session : ℕ → ℕ → ℕ → JobSession
queued_session transaction_at job session = record {
  job_id = job;
  session_id = session;
  status = pending;
  attempt_count = 0;
  queued_at = transaction_at;
  started_at = none;
  heartbeat_at = none;
  next_retry_at = none;
  completed_at = none;
  last_error_code = none;
  last_error_message = none;
}

-- Whether the loop queues an eligible session: not one that the job has, nor one that is ingested.
abbrev pub is_queueable : ℕ → List JobSession → Eligible → Bool
is_queueable job existing row =
    is_none (find_row job row.race_session.id existing) && not (is_ingesting row.ingestion)

-- The sessions that the loop queues.
unfoldable pub newly_queued : ℕ → List JobSession → List Eligible → List ℕ
newly_queued job existing [] = []
newly_queued job existing (row ∷ rows) =
    let rest = newly_queued job existing rows in
    if is_queueable job existing row then row.race_session.id ∷ rest else rest

-- The rows are added one by one, and the primary key of the table refuses a second one.
unfoldable pub add_sessions :
    ℕ → ℕ → List ℕ → List JobSession → Outcome PlanningError (List JobSession)
unfolding find_row
add_sessions transaction_at job [] rows = ok rows
add_sessions transaction_at job (n ∷ ns) rows =
    guard (is_none (find_row job n rows)) unique_violation
    >> add_sessions transaction_at job ns (rows ++ (queued_session transaction_at job n ∷ []))

-- The part of the planning after the job is known.
unfoldable pub queue_sessions :
    ℕ → Option Job → List Eligible → Store → Outcome PlanningError (List ℕ × Store)
unfolding newly_queued add_sessions
queue_sessions transaction_at none rows db = ok ([], db)
queue_sessions transaction_at (some job) rows db = do
  let ids = newly_queued job.id db.job_sessions rows
  job_sessions ← add_sessions transaction_at job.id ids db.job_sessions
  ok (ids, record db { job_sessions = job_sessions })

unfoldable pub insert_deferred :
    DeferredFutureEvent → List DeferredFutureEvent → List DeferredFutureEvent
insert_deferred d [] = d ∷ []
insert_deferred d (x ∷ xs) =
    let rest = insert_deferred d xs in
    if ltb d.round_number x.round_number
      || (d.round_number == x.round_number && ltb d.scheduled_start_at x.scheduled_start_at)
    then d ∷ x ∷ xs
    else x ∷ rest

-- The deferred events that the last refresh saw, in order.
unfoldable pub deferred_events : Season → List DeferredSeasonEvent → List DeferredFutureEvent
unfolding insert_deferred
deferred_events season [] = []
deferred_events season (x ∷ xs) =
    let rest = deferred_events season xs in
    if x.season_year == season.year
      && same_instant (some x.discovered_at) season.coverage_checked_at
    then insert_deferred
        (record {
          round_number = x.round_number;
          event_name = x.event_name;
          scheduled_start_at = x.scheduled_start_at;
        })
        rest
    else rest

abbrev pub id_of : Option Job → Option ℕ
id_of none = none
id_of (some job) = some job.id

abbrev status_of : Option Job → Option Status
status_of none = none
status_of (some job) = some job.status

-- What a planning transaction is given: the clock, `now()` of the transaction and the id of a new job.
pub record PlanningInputs : Type 0 where
  pub database_now : ℕ
  pub transaction_at : ℕ
  pub new_job_id : ℕ

unfoldable pub create_or_reuse_job :
    ValidSettings
    → PlanningInputs
    → Season
    → CoverageRefreshReason
    → Bool
    → Catalogue
    → Store
    → Outcome PlanningError (Plan × Store)
unfolding current_sessions active_job eligible_rows reuse_or_create queue_sessions deferred_events
create_or_reuse_job s inputs season reason refreshed cat db = do
  let active = active_job season.year db.jobs db.job_ids
  rows ←
      eligible_rows s inputs.database_now active db.ingestions
        (current_sessions season cat.events cat.sessions)
  placed ← reuse_or_create inputs.transaction_at inputs.new_job_id season.year reason active rows db
  queued ← queue_sessions inputs.transaction_at placed.0 rows placed.1
  ok (
    record {
      season_year = season.year;
      coverage_reason = reason;
      coverage_refreshed = refreshed;
      coverage_checked_at = season.coverage_checked_at;
      coverage_valid_until = season.coverage_valid_until;
      job_id = id_of placed.0;
      job_status = status_of placed.0;
      job_created = is_none active && not (is_none placed.0);
      eligible_session_ids = map (λ row. row.race_session.id) rows;
      newly_queued_session_ids = queued.0;
      deferred_future_events = deferred_events season cat.deferred;
    },
    queued.1,
  )
