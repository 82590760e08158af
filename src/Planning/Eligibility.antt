-- ===== src/Planning/Eligibility.antt =====
-- The sessions that `_create_or_reuse_job` finds eligible, and `_request_reason`.
use formula1_dashboard.Common.{
  ℕ, Bool, true, false, not, Option, none, some, List, [], ◌∷◌, Outcome, ok, err, ◌>>=◌, ltb, ◌==◌,
  ◌&&◌, ◌||◌, if◌then◌else◌, is_none, any,
}
use formula1_dashboard.Policy.Settings.{ValidSettings}
use formula1_dashboard.Policy.Retry.{DateTime}
use formula1_dashboard.Freshness.{CoverageRefreshReason, evaluate_archive_ingestion}
use formula1_dashboard.Store.{Job, Ingestion, RequestReason, is_active, is_active_for, is_archive}
use formula1_dashboard.Planning.Catalogue.{
  Season, Event, RaceSession, PlanningError, policy, event_of,
}

-- A column with a time zone.
abbrev pub aware : ℕ → DateTime
aware t = record { instant = t; has_timezone = true }

abbrev pub aware_option : Option ℕ → Option DateTime
aware_option none = none
aware_option (some t) = some (aware t)

-- `column == value`, which is `IS NULL` for None and not true for a column that is null.
abbrev pub same_instant : Option ℕ → Option ℕ → Bool
same_instant none none = true
same_instant (some a) (some b) = a == b
same_instant _ _ = false

-- A session with the round of its event.
pub record Current : Type 0 where
  pub round_number : ℕ
  pub race_session : RaceSession

-- `ORDER BY` a nullable column: nulls come last.
abbrev nulls_last : Option ℕ → Option ℕ → Bool → Bool
nulls_last none none next = next
nulls_last none (some b) next = false
nulls_last (some a) none next = true
nulls_last (some a) (some b) next = ltb a b || (a == b && next)

unfoldable pub current_before : Current → Current → Bool
current_before a b =
    ltb a.round_number b.round_number
    || (a.round_number == b.round_number
        && nulls_last a.race_session.scheduled_start_at b.race_session.scheduled_start_at
            (ltb a.race_session.id b.race_session.id))

unfoldable pub insert_current : Current → List Current → List Current
unfolding current_before
insert_current c [] = c ∷ []
insert_current c (x ∷ xs) =
    let rest = insert_current c xs in if current_before c x then c ∷ x ∷ xs else x ∷ rest

-- The join and the `WHERE` for one session.
unfoldable pub current_of : Season → Option Event → RaceSession → Option Current
current_of season none x = none
current_of season (some event) x =
    if event.season_year == season.year
      && is_archive event.source
      && is_archive x.source
      && same_instant event.last_discovered_at season.coverage_checked_at
      && same_instant x.last_discovered_at season.coverage_checked_at
    then some (record { round_number = event.round_number; race_session = x })
    else none

abbrev insert_found : Option Current → List Current → List Current
insert_found none rest = rest
insert_found (some c) rest = insert_current c rest

-- The sessions of the season that its last refresh saw, in order.
unfoldable pub current_sessions : Season → List Event → List RaceSession → List Current
unfolding event_of current_of insert_current
current_sessions season events [] = []
current_sessions season events (x ∷ xs) =
    insert_found (current_of season (event_of x.event_id events) x)
      (current_sessions season events xs)

-- The active job of a season.
unfoldable pub active_job : ℕ → (ℕ → Option Job) → List ℕ → Option Job
active_job year jobs [] = none
active_job year jobs (id ∷ ids) =
    let rest = active_job year jobs ids in if is_active_for year (jobs id) then jobs id else rest

-- A session with its ingestion.
pub record Eligible : Type 0 where
  pub race_session : RaceSession
  pub ingestion : Option Ingestion

abbrev pub is_ingesting : Option Ingestion → Bool
is_ingesting none = false
is_ingesting (some i) = is_active i.status

abbrev pub is_foreign : Option Ingestion → Bool
is_foreign none = false
is_foreign (some i) = not (is_archive i.source)

abbrev pub completed_at_of : Option Ingestion → Option ℕ
completed_at_of none = none
completed_at_of (some i) = i.completed_at

-- The verdict of the freshness policy, its errors passed on.
unfoldable pub archive_eligible :
    ValidSettings → ℕ → RaceSession → Option Ingestion → Outcome PlanningError Bool
unfolding evaluate_archive_ingestion
archive_eligible s now x i =
    elim (evaluate_archive_ingestion (aware_option x.scheduled_end_at)
      (aware_option (completed_at_of i)) (aware now) s) [
        | err e ↦ err (policy e)
        | ok verdict ↦ ok verdict.eligible
      ]

-- One round of the loop over the sessions: whether the session is eligible.
unfoldable pub is_eligible :
    ValidSettings → ℕ → Option Job → RaceSession → Option Ingestion → Outcome PlanningError Bool
unfolding archive_eligible
is_eligible s now active x i =
    if is_foreign i
    then ok false
    else if is_none active && is_ingesting i
    then ok false
    else archive_eligible s now x i

abbrev pub keep_eligible : Bool → RaceSession → Option Ingestion → List Eligible → List Eligible
keep_eligible b x i rest = if b then record { race_session = x; ingestion = i } ∷ rest else rest

unfoldable pub eligible_rows :
    ValidSettings
    → ℕ
    → Option Job
    → (ℕ → Option Ingestion)
    → List Current
    → Outcome PlanningError (List Eligible)
unfolding is_eligible
eligible_rows s now active ingestions [] = ok []
eligible_rows s now active ingestions (c ∷ cs) =
    is_eligible s now active c.race_session (ingestions c.race_session.id) >>= λ b.
    eligible_rows s now active ingestions cs >>= λ rest.
    ok (keep_eligible b c.race_session (ingestions c.race_session.id) rest)

abbrev was_completed : Option Ingestion → Bool
was_completed i = not (is_none (completed_at_of i))

-- `_request_reason`.
unfoldable pub request_reason : CoverageRefreshReason → List Eligible → RequestReason
unfolding any
request_reason CoverageRefreshReason.missing rows = RequestReason.missing
request_reason CoverageRefreshReason.stale rows = RequestReason.stale
request_reason CoverageRefreshReason.fresh rows =
    if any (λ row. was_completed row.ingestion) rows
    then RequestReason.stale
    else RequestReason.partial
