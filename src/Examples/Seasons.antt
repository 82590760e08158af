-- ===== src/Examples/Seasons.antt =====
-- A season with one session, for the examples. Times are microseconds.
use formula1_dashboard.Common.{ℕ, none, [], ◌∷◌, false}
use formula1_dashboard.Store.{Store}
use formula1_dashboard.Planning.Catalogue.{
  Catalogue, NormalizedScheduledSession, NormalizedScheduledEvent, NormalizedSeasonSchedule,
}
use formula1_dashboard.Planning.Queue.{PlanningInputs}
use formula1_dashboard.Planning.Ensure.{World}

abbrev race : NormalizedScheduledSession
race = record {
  session_key = "race";
  session_name = "Race";
  scheduled_start_at = 0;
  scheduled_end_at = 1;
}

abbrev grand_prix : NormalizedScheduledEvent
grand_prix = record {
  round_number = 1;
  official_name = none;
  event_name = "Grand Prix";
  country = none;
  location = none;
  event_format = "conventional";
  starts_at = 0;
  ends_at = 1;
  sessions = race ∷ [];
}

abbrev pub schedule : NormalizedSeasonSchedule
schedule = record { season_year = 2024; events = grand_prix ∷ []; deferred_future_events = [] }

abbrev pub no_seasons : Catalogue
no_seasons = record {
  seasons = λ _. none;
  events = [];
  next_event_id = 1;
  sessions = [];
  next_session_id = 7;
  deferred = [];
}

abbrev pub no_jobs : Store
no_jobs = record {
  in_transaction = false;
  gate = none;
  job_ids = [];
  jobs = λ _. none;
  job_sessions = [];
  ingestions = λ _. none;
  sessions = λ _. none;
}

abbrev pub nothing : World
nothing = record { catalogue = no_seasons; store = no_jobs }

-- Past the availability grace of the race.
abbrev pub planned_at : ℕ
planned_at = 8000000000

abbrev pub inputs : PlanningInputs
inputs = record { database_now = planned_at; transaction_at = planned_at; new_job_id = 1 }

-- The calendar year of every instant of the examples.
abbrev pub utc_year : ℕ → ℕ
utc_year t = 2026
