-- ===== src/Planning/Discovery.antt =====
-- `_persist_schedule_snapshot`. The dictionaries of the code, filled once and extended by the rows that
-- are added, are lookups in the tables here: their keys are the tables' unique keys.
use formula1_dashboard.Common.{
  ℕ, ◌+◌, Bool, not, none, some, List, [], ◌∷◌, ◌++◌, Outcome, ok, ◌>>=◌, ◌>>◌, guard, ◌==◌, ◌&&◌,
  select, any,
}
use formula1_dashboard.Store.{fastf1_archive, is_archive, update}
use formula1_dashboard.Planning.Catalogue.{
  Season, Event, RaceSession, DeferredSeasonEvent, Catalogue, NormalizedScheduledSession,
  NormalizedScheduledEvent, DeferredFutureEvent, NormalizedSeasonSchedule, PlanningError,
  source_conflict, find_event, put_event, find_session, put_session, find_deferred, put_deferred,
}

-- What a scheduled event writes to its row.
abbrev pub discovered_event : ℕ → NormalizedScheduledEvent → Event → Event
discovered_event at e event = record event {
  official_name = e.official_name;
  event_name = e.event_name;
  country = e.country;
  location = e.location;
  event_format = some e.event_format;
  starts_at = some e.starts_at;
  ends_at = some e.ends_at;
  last_discovered_at = some at;
  updated_at = at;
}

-- The row made for a scheduled event.
abbrev pub new_event : ℕ → ℕ → ℕ → NormalizedScheduledEvent → Event
new_event id year at e = record {
  id = id;
  season_year = year;
  round_number = e.round_number;
  official_name = none;
  event_name = e.event_name;
  country = none;
  location = none;
  event_format = none;
  starts_at = none;
  ends_at = none;
  last_discovered_at = none;
  source = fastf1_archive;
  updated_at = at;
}

-- The event of a round, found or made, and updated; the answer is its id.
unfoldable pub persist_event :
    ℕ → ℕ → NormalizedScheduledEvent → Catalogue → Outcome PlanningError (ℕ × Catalogue)
unfolding find_event put_event
persist_event year at e cat = elim (find_event year e.round_number cat.events) [
  | none ↦ ok (
    cat.next_event_id,
    record cat {
      events = cat.events ++ (discovered_event at e (new_event cat.next_event_id year at e) ∷ []);
      next_event_id = cat.next_event_id + 1;
    },
  )
  | some event ↦
      guard (is_archive event.source) source_conflict
      >> ok (event.id, record cat { events = put_event (discovered_event at e event) cat.events })
]

-- What a scheduled session writes to its row.
abbrev pub discovered_session : ℕ → NormalizedScheduledSession → RaceSession → RaceSession
discovered_session at x row = record row {
  session_name = x.session_name;
  scheduled_start_at = some x.scheduled_start_at;
  scheduled_end_at = some x.scheduled_end_at;
  last_discovered_at = some at;
  updated_at = at;
}

-- The row made for a scheduled session.
abbrev pub new_session : ℕ → ℕ → ℕ → NormalizedScheduledSession → RaceSession
new_session id event at x = record {
  id = id;
  event_id = event;
  session_key = x.session_key;
  session_name = x.session_name;
  scheduled_start_at = none;
  scheduled_end_at = none;
  last_discovered_at = none;
  source = fastf1_archive;
  updated_at = at;
}

unfoldable pub persist_session :
    ℕ → ℕ → NormalizedScheduledSession → Catalogue → Outcome PlanningError Catalogue
unfolding find_session put_session
persist_session event at x cat = elim (find_session event x.session_key cat.sessions) [
  | none ↦ ok (record cat {
    sessions =
        cat.sessions ++ (discovered_session at x (new_session cat.next_session_id event at x) ∷ []);
    next_session_id = cat.next_session_id + 1;
  })
  | some row ↦
      guard (is_archive row.source) source_conflict
      >> ok (record cat { sessions = put_session (discovered_session at x row) cat.sessions })
]

-- The inner loop.
unfoldable pub persist_sessions :
    ℕ → ℕ → List NormalizedScheduledSession → Catalogue → Outcome PlanningError Catalogue
unfolding persist_session
persist_sessions event at [] cat = ok cat
persist_sessions event at (x ∷ xs) cat =
    persist_session event at x cat >>= λ next. persist_sessions event at xs next

-- The outer loop.
unfoldable pub persist_events :
    ℕ → ℕ → List NormalizedScheduledEvent → Catalogue → Outcome PlanningError Catalogue
unfolding persist_event persist_sessions
persist_events year at [] cat = ok cat
persist_events year at (e ∷ es) cat = persist_event year at e cat >>= λ placed.
    persist_sessions placed.0 at e.sessions placed.1 >>= λ next. persist_events year at es next

-- The row made for a deferred event, with the transaction's time in `updated_at`.
abbrev pub new_deferred : ℕ → ℕ → ℕ → DeferredFutureEvent → DeferredSeasonEvent
new_deferred transaction_at year at d = record {
  season_year = year;
  round_number = d.round_number;
  event_name = d.event_name;
  scheduled_start_at = d.scheduled_start_at;
  discovered_at = at;
  updated_at = transaction_at;
}

-- What a deferred event writes to a row that is there.
abbrev pub deferred_again : ℕ → DeferredFutureEvent → DeferredSeasonEvent → DeferredSeasonEvent
deferred_again at d state = record state {
  event_name = d.event_name;
  scheduled_start_at = d.scheduled_start_at;
  discovered_at = at;
  updated_at = at;
}

unfoldable pub persist_deferred :
    ℕ → ℕ → ℕ → DeferredFutureEvent → List DeferredSeasonEvent → List DeferredSeasonEvent
unfolding find_deferred put_deferred
persist_deferred transaction_at year at d rows = elim (find_deferred year d.round_number rows) [
  | none ↦ rows ++ (new_deferred transaction_at year at d ∷ [])
  | some state ↦ put_deferred (deferred_again at d state) rows
]

unfoldable pub persist_deferreds :
    ℕ → ℕ → ℕ → List DeferredFutureEvent → List DeferredSeasonEvent → List DeferredSeasonEvent
unfolding persist_deferred
persist_deferreds transaction_at year at [] rows = rows
persist_deferreds transaction_at year at (d ∷ ds) rows =
    persist_deferreds transaction_at year at ds (persist_deferred transaction_at year at d rows)

-- Whether a row of the season is deferred no longer.
unfoldable pub is_stale_deferred : ℕ → List DeferredFutureEvent → DeferredSeasonEvent → Bool
unfolding any
is_stale_deferred year ds row =
    row.season_year == year && not (any (λ d. d.round_number == row.round_number) ds)

-- The season's row after a successful refresh.
abbrev pub covered_season : ℕ → ℕ → ℕ → Season
covered_season year at valid_until = record {
  year = year;
  coverage_checked_at = some at;
  coverage_valid_until = some valid_until;
  updated_at = at;
}

unfoldable pub persist_snapshot :
    ℕ → ℕ → ℕ → NormalizedSeasonSchedule → Catalogue → Outcome PlanningError Catalogue
unfolding persist_events persist_deferreds is_stale_deferred select
persist_snapshot transaction_at at valid_until schedule cat = do
  let year = schedule.season_year
  next ← persist_events year at schedule.events cat
  ok (record next {
    deferred =
        select (λ row. not (is_stale_deferred year schedule.deferred_future_events row))
          (persist_deferreds transaction_at year at schedule.deferred_future_events next.deferred);
    seasons = update next.seasons year (some (covered_season year at valid_until));
  })
