-- ===== src/Planning/Foreign.antt =====
-- A schedule snapshot writes no session of an event outside its season.
use formula1_dashboard.Common.{
  ℕ, ◌≡◌, ◌∙◌, Bool, true, false, some, List, [], ◌∷◌, ◌++◌, ok, arith, ◌==◌, ◌&&◌, ◌||◌, select,
  any, Outcome-cases, Option-cases, inl, inr,
}
use formula1_dashboard.Planning.Catalogue.{
  Event, Catalogue, NormalizedScheduledSession, NormalizedScheduledEvent, find_event, put_event,
  find_session,
}
use formula1_dashboard.Planning.Discovery.{
  persist_event, persist_session, persist_sessions, persist_events, new_event, new_session,
  discovered_event, discovered_session,
}
use formula1_dashboard.Planning.Kept.{
  select-append_not, find_event-season, find_session-key, select-put_session,
}

-- Whether an id is that of an event of a season.
abbrev pub is_season_event : ℕ → ℕ → List Event → Bool
is_season_event year id events = any (λ e. e.season_year == year && e.id == id) events

any-append :
    (test : Event → Bool) (new : Event) (xs : List Event)
    → any test (xs ++ (new ∷ [])) ≡ (any test xs || test new)
unfolding any
any-append test new [] = ground arith
any-append test new (x ∷ xs) = ground (arith, any-append test new xs)

any-put_event :
    (test : Event → Bool) (new old : Event) (events : List Event)
    → find_event new.season_year new.round_number events ≡ some old
    → test old ≡ test new
    → any test (put_event new events) ≡ any test events
unfolding any find_event put_event
any-put_event test new old [] h e = absurd (cc)
any-put_event test new old (x ∷ events) h e = ground (arith, any-put_event test new old events)

find_event-any :
    (test : Event → Bool) (year round : ℕ) (events : List Event) (event : Event)
    → find_event year round events ≡ some event
    → test event ≡ true
    → any test events ≡ true
unfolding find_event any
find_event-any test year round [] event h e = absurd (cc)
find_event-any test year round (x ∷ events) event h e =
    ground (arith, find_event-any test year round events event)

-- The events of a season after a part of the persisting: those that there were, and the sessions of no
-- other event have changed.
pub record KeepsForeign (year : ℕ) (cat cat' : Catalogue) : Type 0 where
  pub grows :
      (k : ℕ) → is_season_event year k cat.events ≡ true → is_season_event year k cat'.events ≡ true
  pub sessions :
      (k : ℕ)
      → is_season_event year k cat'.events ≡ false
      → select (λ x. x.event_id == k) cat'.sessions ≡ select (λ x. x.event_id == k) cat.sessions

KeepsForeign-trans :
    (year : ℕ) (a b c : Catalogue)
    → KeepsForeign year a b
    → KeepsForeign year b c
    → KeepsForeign year a c
KeepsForeign-trans year a b c f g = record {
  grows = λ k h. g.grows k (f.grows k h);
  sessions = λ k h. g.sessions k h ∙ f.sessions k ground (arith, g.grows k);
}

module _ (year at : ℕ) where
  persist_event-season :
      (e : NormalizedScheduledEvent) (cat cat' : Catalogue) (id : ℕ)
      → persist_event year at e cat ≡ ok (id, cat')
      → is_season_event year id cat'.events ≡ true
  unfolding persist_event
  persist_event-season e cat cat' id h =
      elim (Option-cases (find_event year e.round_number cat.events)) [
        | inl new ↦ ground (
          arith,
          any-append (λ x. x.season_year == year && x.id == id)
              (discovered_event at e (new_event cat.next_event_id year at e)) cat.events,
        )
        | inr (event, found) ↦
            let key = find_event-season year e.round_number cat.events event found in
            let test : Event → Bool = (λ x. x.season_year == year && x.id == id) in
            ground (
              arith,
              find_event-any test year e.round_number cat.events event found,
              any-put_event test (discovered_event at e event) event cat.events,
            )
      ]

  persist_event-KeepsForeign :
      (e : NormalizedScheduledEvent) (cat cat' : Catalogue) (id : ℕ)
      → persist_event year at e cat ≡ ok (id, cat')
      → KeepsForeign year cat cat'
  unfolding persist_event
  persist_event-KeepsForeign e cat cat' id h =
      elim (Option-cases (find_event year e.round_number cat.events)) [
        | inl new ↦ record {
          grows = λ k there. ground (
            arith,
            any-append (λ x. x.season_year == year && x.id == k)
                (discovered_event at e (new_event cat.next_event_id year at e)) cat.events,
          );
          sessions = λ k other. ground arith;
        }
        | inr (event, found) ↦
            let key = find_event-season year e.round_number cat.events event found in
            record {
              grows = λ k there. ground (
                arith,
                any-put_event (λ x. x.season_year == year && x.id == k)
                    (discovered_event at e event) event cat.events,
              );
              sessions = λ k other. ground arith;
            }
      ]

  persist_session-KeepsForeign :
      (event : ℕ) (x : NormalizedScheduledSession) (cat cat' : Catalogue)
      → is_season_event year event cat.events ≡ true
      → persist_session event at x cat ≡ ok cat'
      → KeepsForeign year cat cat' × (cat'.events ≡ cat.events)
  unfolding persist_session
  persist_session-KeepsForeign event x cat cat' own h =
      elim (Option-cases (find_session event x.session_key cat.sessions)) [
        | inl new ↦ (
          record {
            grows = λ k there. ground arith;
            sessions = λ k other. ground (
              arith,
              select-append_not (λ y. y.event_id == k)
                  (discovered_session at x (new_session cat.next_session_id event at x))
                  cat.sessions,
            );
          },
          ground arith,
        )
        | inr (row, found) ↦
            let key = find_session-key event x.session_key cat.sessions row found in
            let again : find_session row.event_id row.session_key cat.sessions ≡ some row = cc in
            (
              record {
                grows = λ k there. ground arith;
                sessions = λ k other. ground (
                  arith,
                  select-put_session (λ y. y.event_id == k) (discovered_session at x row) row
                      cat.sessions again,
                );
              },
              ground arith,
            )
      ]

KeepsForeign-same : (year : ℕ) (cat cat' : Catalogue) → cat ≡ cat' → KeepsForeign year cat cat'
KeepsForeign-same year cat cat' e = record {
  grows = λ k h. ground arith;
  sessions = λ k h. ground arith;
}

persist_sessions-KeepsForeign :
    (year event at : ℕ) (xs : List NormalizedScheduledSession) (cat cat' : Catalogue)
    → is_season_event year event cat.events ≡ true
    → persist_sessions event at xs cat ≡ ok cat'
    → KeepsForeign year cat cat'
unfolding persist_sessions
persist_sessions-KeepsForeign year event at [] cat cat' own h =
    KeepsForeign-same year cat cat' (ground arith)
persist_sessions-KeepsForeign year event at (x ∷ xs) cat cat' own h =
    elim (Outcome-cases (persist_session event at x cat)) [
      | inr bad ↦ absurd (ground arith)
      | inl (next, e) ↦
          let (first, same) = persist_session-KeepsForeign year at event x cat next own e in
          KeepsForeign-trans year cat next cat' first (
            persist_sessions-KeepsForeign year event at xs next cat' (first.grows event own)
              (ground arith))
    ]

pub persist_events-KeepsForeign :
    (year at : ℕ) (es : List NormalizedScheduledEvent) (cat cat' : Catalogue)
    → persist_events year at es cat ≡ ok cat'
    → KeepsForeign year cat cat'
unfolding persist_events
persist_events-KeepsForeign year at [] cat cat' h = KeepsForeign-same year cat cat' (ground arith)
persist_events-KeepsForeign year at (x ∷ es) cat cat' h =
    elim (Outcome-cases (persist_event year at x cat)) [
      | inr bad ↦ absurd (ground arith)
      | inl ((id, placed), e) ↦ elim (Outcome-cases (persist_sessions id at x.sessions placed)) [
        | inr bad ↦ absurd (ground arith)
        | inl (next, e') ↦
            KeepsForeign-trans year cat placed cat'
              (persist_event-KeepsForeign year at x cat placed id e)
              (KeepsForeign-trans year placed next cat'
                (persist_sessions-KeepsForeign year id at x.sessions placed next
                  (persist_event-season year at x cat placed id e) e')
                (persist_events-KeepsForeign year at es next cat' (ground arith)))
      ]
    ]
