-- ===== src/Planning/Catalogue.antt =====
-- The tables of seasons, events, sessions and deferred events, and the schedule of a season.
use text.Mathlib.Text.{◌==◌ as str_eq}
use formula1_dashboard.Common.{
  ℕ, String, Option, none, some, List, [], ◌∷◌, ◌==◌, ◌&&◌, if◌then◌else◌,
}
use formula1_dashboard.Policy.Settings.{PolicyError}
use formula1_dashboard.Store.{Source, SessionIdentity}

pub record Season : Type 0 where
  pub year : ℕ
  pub coverage_checked_at : Option ℕ
  pub coverage_valid_until : Option ℕ
  pub updated_at : ℕ

pub record Event : Type 0 where
  pub id : ℕ
  pub season_year : ℕ
  pub round_number : ℕ
  pub official_name : Option String
  pub event_name : String
  pub country : Option String
  pub location : Option String
  pub event_format : Option String
  pub starts_at : Option ℕ
  pub ends_at : Option ℕ
  pub last_discovered_at : Option ℕ
  pub source : Source
  pub updated_at : ℕ

pub record RaceSession : Type 0 where
  pub id : ℕ
  pub event_id : ℕ
  pub session_key : String
  pub session_name : String
  pub scheduled_start_at : Option ℕ
  pub scheduled_end_at : Option ℕ
  pub last_discovered_at : Option ℕ
  pub source : Source
  pub updated_at : ℕ

pub record DeferredSeasonEvent : Type 0 where
  pub season_year : ℕ
  pub round_number : ℕ
  pub event_name : String
  pub scheduled_start_at : ℕ
  pub discovered_at : ℕ
  pub updated_at : ℕ

-- The tables, and the next values of the identity columns.
pub record Catalogue : Type 0 where
  pub seasons : ℕ → Option Season
  pub events : List Event
  pub next_event_id : ℕ
  pub sessions : List RaceSession
  pub next_session_id : ℕ
  pub deferred : List DeferredSeasonEvent

pub record NormalizedScheduledSession : Type 0 where
  pub session_key : String
  pub session_name : String
  pub scheduled_start_at : ℕ
  pub scheduled_end_at : ℕ

pub record NormalizedScheduledEvent : Type 0 where
  pub round_number : ℕ
  pub official_name : Option String
  pub event_name : String
  pub country : Option String
  pub location : Option String
  pub event_format : String
  pub starts_at : ℕ
  pub ends_at : ℕ
  pub sessions : List NormalizedScheduledSession

pub record DeferredFutureEvent : Type 0 where
  pub round_number : ℕ
  pub event_name : String
  pub scheduled_start_at : ℕ

pub record NormalizedSeasonSchedule : Type 0 where
  pub season_year : ℕ
  pub events : List NormalizedScheduledEvent
  pub deferred_future_events : List DeferredFutureEvent

-- The exceptions of the planning.
pub data PlanningError : Type 0 where
  season_year_range : PlanningError
  snapshot_mismatch : PlanningError
  load_failed : PlanningError
  source_conflict : PlanningError
  coverage_changed : PlanningError
  policy : PolicyError → PlanningError
  unique_violation : PlanningError

-- The event that the unique key (season, round) selects.
unfoldable pub find_event : ℕ → ℕ → List Event → Option Event
find_event year round [] = none
find_event year round (event ∷ events) =
    let rest = find_event year round events in
    if event.season_year == year && event.round_number == round then some event else rest

-- An event written back under its key.
unfoldable pub put_event : Event → List Event → List Event
put_event new [] = []
put_event new (event ∷ events) =
    let rest = put_event new events in
    if event.season_year == new.season_year && event.round_number == new.round_number
    then new ∷ events
    else event ∷ rest

-- The session that the unique key (event, session key) selects.
unfoldable pub find_session : ℕ → String → List RaceSession → Option RaceSession
find_session event key [] = none
find_session event key (x ∷ sessions) =
    let rest = find_session event key sessions in
    if x.event_id == event && str_eq x.session_key key then some x else rest

unfoldable pub put_session : RaceSession → List RaceSession → List RaceSession
put_session new [] = []
put_session new (x ∷ sessions) =
    let rest = put_session new sessions in
    if x.event_id == new.event_id && str_eq x.session_key new.session_key
    then new ∷ sessions
    else x ∷ rest

unfoldable pub find_deferred : ℕ → ℕ → List DeferredSeasonEvent → Option DeferredSeasonEvent
find_deferred year round [] = none
find_deferred year round (x ∷ xs) =
    let rest = find_deferred year round xs in
    if x.season_year == year && x.round_number == round then some x else rest

unfoldable pub put_deferred :
    DeferredSeasonEvent → List DeferredSeasonEvent → List DeferredSeasonEvent
put_deferred new [] = []
put_deferred new (x ∷ xs) =
    let rest = put_deferred new xs in
    if x.season_year == new.season_year && x.round_number == new.round_number
    then new ∷ xs
    else x ∷ rest

unfoldable pub event_of : ℕ → List Event → Option Event
event_of id [] = none
event_of id (event ∷ events) =
    let rest = event_of id events in if event.id == id then some event else rest

unfoldable pub session_of : ℕ → List RaceSession → Option RaceSession
session_of id [] = none
session_of id (x ∷ sessions) =
    let rest = session_of id sessions in if x.id == id then some x else rest

-- What the tables say of a session: its own row with that of its event.
unfoldable pub identity_of : Catalogue → ℕ → Option SessionIdentity
unfolding event_of session_of
identity_of cat id = elim (session_of id cat.sessions) [
  | none ↦ none
  | some x ↦ elim (event_of x.event_id cat.events) [
    | none ↦ none
    | some event ↦ some (record {
      session_id = id;
      season_year = event.season_year;
      round_number = event.round_number;
      session_name = x.session_name;
    })
  ]
]
