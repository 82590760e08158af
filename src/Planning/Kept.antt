-- ===== src/Planning/Kept.antt =====
-- What the persisting of events and sessions leaves as it is.
use text.Mathlib.TextEquality.{eq_iff}
use formula1_dashboard.Common.{
  ℕ, String, ◌≡◌, ◌∙◌, refl, ap, subst, Bool, false, not, some, List, [], ◌∷◌, ◌++◌, ok, arith,
  ◌==◌, ◌||◌, select, Outcome-cases, Option-cases, inl, inr,
}
use formula1_dashboard.Store.{is_archive}
use formula1_dashboard.Planning.Catalogue.{
  Event, RaceSession, DeferredSeasonEvent, Catalogue, NormalizedScheduledSession,
  NormalizedScheduledEvent, find_event, put_event, find_session, put_session,
}
use formula1_dashboard.Planning.Discovery.{
  persist_event, persist_session, persist_sessions, persist_events, new_event, new_session,
  discovered_event, discovered_session,
}

pub select-append_not {ℓ} :
    {A : Type ℓ} (test : A → Bool) (new : A) (xs : List A)
    → test new ≡ false
    → select test (xs ++ (new ∷ [])) ≡ select test xs
unfolding select
select-append_not test new [] h = ground arith
select-append_not test new (x ∷ xs) h = ground (arith, select-append_not test new xs)

-- An event that the archive may not write for a season.
abbrev pub is_other_event : ℕ → Event → Bool
is_other_event year event = not (is_archive event.source) || not (event.season_year == year)

abbrev pub is_other_session : RaceSession → Bool
is_other_session x = not (is_archive x.source)

abbrev pub is_other_deferred : ℕ → DeferredSeasonEvent → Bool
is_other_deferred year row = not (row.season_year == year)

pub find_event-season :
    (year round : ℕ) (events : List Event) (event : Event)
    → find_event year round events ≡ some event
    → (event.season_year ≡ year) × (event.round_number ≡ round)
unfolding find_event
find_event-season year round [] event h = absurd (cc)
find_event-season year round (x ∷ events) event h =
    ground (arith, find_event-season year round events event)

select-put_event :
    (test : Event → Bool) (year round : ℕ) (new old : Event) (events : List Event)
    → find_event new.season_year new.round_number events ≡ some old
    → test old ≡ false
    → test new ≡ false
    → select test (put_event new events) ≡ select test events
unfolding select find_event put_event
select-put_event test year round new old [] h o n = absurd (cc)
select-put_event test year round new old (x ∷ events) h o n =
    ground (arith, select-put_event test year round new old events)

persist_event-others :
    (year at : ℕ) (e : NormalizedScheduledEvent) (cat cat' : Catalogue) (id : ℕ)
    → persist_event year at e cat ≡ ok (id, cat')
    → (select (is_other_event year) cat'.events ≡ select (is_other_event year) cat.events)
      × (cat'.sessions ≡ cat.sessions)
      × (cat'.deferred ≡ cat.deferred)
      × (cat'.seasons ≡ cat.seasons)
unfolding persist_event
persist_event-others year at e cat cat' id h =
    elim (Option-cases (find_event year e.round_number cat.events)) [
      | inl new ↦ ground (
        arith,
        select-append_not (is_other_event year)
            (discovered_event at e (new_event cat.next_event_id year at e)) cat.events,
      )
      | inr (event, found) ↦ ground (
        arith,
        find_event-season year e.round_number cat.events event,
        select-put_event (is_other_event year) year e.round_number (discovered_event at e event)
            event cat.events,
      )
    ]

pub find_session-key :
    (event : ℕ) (key : String) (xs : List RaceSession) (x : RaceSession)
    → find_session event key xs ≡ some x
    → (x.event_id ≡ event) × (x.session_key ≡ key)
unfolding find_session
find_session-key event key [] x h = absurd (cc)
find_session-key event key (y ∷ xs) x h =
    ground (arith, eq_iff y.session_key key, find_session-key event key xs x)

pub select-put_session :
    (test : RaceSession → Bool) (new old : RaceSession) (xs : List RaceSession)
    → find_session new.event_id new.session_key xs ≡ some old
    → test old ≡ false
    → test new ≡ false
    → select test (put_session new xs) ≡ select test xs
unfolding select find_session put_session
select-put_session test new old [] h o n = absurd (cc)
select-put_session test new old (x ∷ xs) h o n = ground (arith, select-put_session test new old xs)

persist_session-others :
    (event at : ℕ) (x : NormalizedScheduledSession) (cat cat' : Catalogue)
    → persist_session event at x cat ≡ ok cat'
    → (select is_other_session cat'.sessions ≡ select is_other_session cat.sessions)
      × (cat'.events ≡ cat.events)
      × (cat'.deferred ≡ cat.deferred)
      × (cat'.seasons ≡ cat.seasons)
unfolding persist_session
persist_session-others event at x cat cat' h =
    elim (Option-cases (find_session event x.session_key cat.sessions)) [
      | inl new ↦ ground (
        arith,
        select-append_not is_other_session
            (discovered_session at x (new_session cat.next_session_id event at x)) cat.sessions,
      )
      | inr (row, found) ↦
          let key = find_session-key event x.session_key cat.sessions row found in
          let own : find_session row.event_id row.session_key cat.sessions ≡ some row = cc in
          ground (
            arith,
            select-put_session is_other_session (discovered_session at x row) row cat.sessions own,
          )
    ]

-- What a part of the persisting leaves as it is.
pub record Others (year : ℕ) (cat cat' : Catalogue) : Type 0 where
  pub events : select (is_other_event year) cat'.events ≡ select (is_other_event year) cat.events
  pub sessions : select is_other_session cat'.sessions ≡ select is_other_session cat.sessions
  pub deferred : cat'.deferred ≡ cat.deferred
  pub seasons : cat'.seasons ≡ cat.seasons

Others-trans : (year : ℕ) (a b c : Catalogue) → Others year a b → Others year b c → Others year a c
Others-trans year a b c f g = record {
  events = g.events ∙ f.events;
  sessions = g.sessions ∙ f.sessions;
  deferred = g.deferred ∙ f.deferred;
  seasons = g.seasons ∙ f.seasons;
}

persist_session-Others :
    (year event at : ℕ) (x : NormalizedScheduledSession) (cat cat' : Catalogue)
    → persist_session event at x cat ≡ ok cat'
    → Others year cat cat'
persist_session-Others year event at x cat cat' h =
    let (sessions, events, deferred, seasons) = persist_session-others event at x cat cat' h in
    record {
      events = ap (select (is_other_event year)) events;
      sessions = sessions;
      deferred = deferred;
      seasons = seasons;
    }

persist_event-Others :
    (year at : ℕ) (e : NormalizedScheduledEvent) (cat cat' : Catalogue) (id : ℕ)
    → persist_event year at e cat ≡ ok (id, cat')
    → Others year cat cat'
persist_event-Others year at e cat cat' id h =
    let (events, sessions, deferred, seasons) = persist_event-others year at e cat cat' id h in
    record {
      events = events;
      sessions = ap (select is_other_session) sessions;
      deferred = deferred;
      seasons = seasons;
    }

same-Others : (year : ℕ) (cat cat' : Catalogue) → cat ≡ cat' → Others year cat cat'
same-Others year cat cat' e =
    subst (Others year cat) e
      (record { events = refl; sessions = refl; deferred = refl; seasons = refl })

persist_sessions-Others :
    (year event at : ℕ) (xs : List NormalizedScheduledSession) (cat cat' : Catalogue)
    → persist_sessions event at xs cat ≡ ok cat'
    → Others year cat cat'
unfolding persist_sessions
persist_sessions-Others year event at [] cat cat' h = same-Others year cat cat' (ground arith)
persist_sessions-Others year event at (x ∷ xs) cat cat' h =
    elim (Outcome-cases (persist_session event at x cat)) [
      | inr bad ↦ absurd (ground arith)
      | inl (next, e) ↦
          Others-trans year cat next cat' (persist_session-Others year event at x cat next e)
            (persist_sessions-Others year event at xs next cat' (ground arith))
    ]

pub persist_events-Others :
    (year at : ℕ) (es : List NormalizedScheduledEvent) (cat cat' : Catalogue)
    → persist_events year at es cat ≡ ok cat'
    → Others year cat cat'
unfolding persist_events
persist_events-Others year at [] cat cat' h = same-Others year cat cat' (ground arith)
persist_events-Others year at (x ∷ es) cat cat' h =
    elim (Outcome-cases (persist_event year at x cat)) [
      | inr bad ↦ absurd (ground arith)
      | inl ((id, placed), e) ↦ elim (Outcome-cases (persist_sessions id at x.sessions placed)) [
        | inr bad ↦ absurd (ground arith)
        | inl (next, e') ↦
            Others-trans year cat placed cat' (persist_event-Others year at x cat placed id e) (
              Others-trans year placed next cat'
                (persist_sessions-Others year id at x.sessions placed next e')
                (persist_events-Others year at es next cat' (ground arith)))
      ]
    ]
