-- ===== src/Planning/Sources.antt =====
-- A schedule snapshot leaves the rows of other sources and of other seasons alone.
use formula1_dashboard.Common.{
  ℕ, ◌≡◌, ◌≢◌, ◌∙◌, refl, Bool, false, not, some, List, [], ◌∷◌, ok, arith, select, ◌==◌,
  Outcome-cases, Option-cases, inl, inr,
}
use formula1_dashboard.Planning.Catalogue.{
  DeferredSeasonEvent, Catalogue, DeferredFutureEvent, NormalizedSeasonSchedule, find_deferred,
  put_deferred,
}
use formula1_dashboard.Planning.Discovery.{
  persist_events, persist_deferred, persist_deferreds, persist_snapshot, is_stale_deferred,
  new_deferred, deferred_again,
}
use formula1_dashboard.Planning.Foreign.{is_season_event, persist_events-KeepsForeign}
use formula1_dashboard.Planning.Kept.{
  select-append_not, is_other_event, is_other_session, is_other_deferred, persist_events-Others,
}

find_deferred-season :
    (year round : ℕ) (rows : List DeferredSeasonEvent) (row : DeferredSeasonEvent)
    → find_deferred year round rows ≡ some row
    → (row.season_year ≡ year) × (row.round_number ≡ round)
unfolding find_deferred
find_deferred-season year round [] row h = absurd (cc)
find_deferred-season year round (x ∷ rows) row h =
    ground (arith, find_deferred-season year round rows row)

select-put_deferred :
    (test : DeferredSeasonEvent → Bool) (new old : DeferredSeasonEvent)
    (rows : List DeferredSeasonEvent)
    → find_deferred new.season_year new.round_number rows ≡ some old
    → test old ≡ false
    → test new ≡ false
    → select test (put_deferred new rows) ≡ select test rows
unfolding select find_deferred put_deferred
select-put_deferred test new old [] h o n = absurd (cc)
select-put_deferred test new old (x ∷ rows) h o n =
    ground (arith, select-put_deferred test new old rows)

persist_deferred-others :
    (t year at : ℕ) (d : DeferredFutureEvent) (rows : List DeferredSeasonEvent)
    → select (is_other_deferred year) (persist_deferred t year at d rows)
      ≡ select (is_other_deferred year) rows
unfolding persist_deferred
persist_deferred-others t year at d rows =
    elim (Option-cases (find_deferred year d.round_number rows)) [
      | inl new ↦
          ground (arith, select-append_not (is_other_deferred year) (new_deferred t year at d) rows)
      | inr (row, found) ↦ ground (
        arith,
        find_deferred-season year d.round_number rows row found,
        select-put_deferred (is_other_deferred year) (deferred_again at d row) row rows,
      )
    ]

persist_deferreds-others :
    (t year at : ℕ) (ds : List DeferredFutureEvent) (rows : List DeferredSeasonEvent)
    → select (is_other_deferred year) (persist_deferreds t year at ds rows)
      ≡ select (is_other_deferred year) rows
unfolding persist_deferreds
persist_deferreds-others t year at [] rows = refl
persist_deferreds-others t year at (d ∷ ds) rows =
    persist_deferreds-others t year at ds (persist_deferred t year at d rows)
    ∙ persist_deferred-others t year at d rows

select-stale :
    (year : ℕ) (ds : List DeferredFutureEvent) (rows : List DeferredSeasonEvent)
    → select (is_other_deferred year) (select (λ row. not (is_stale_deferred year ds row)) rows)
      ≡ select (is_other_deferred year) rows
unfolding select is_stale_deferred
select-stale year ds [] = refl
select-stale year ds (x ∷ rows) = ground (arith, select-stale year ds rows)

-- What a snapshot of a season leaves as it is.
pub record LeavesOthers (season_year : ℕ) (cat cat' : Catalogue) : Type 0 where
  pub events :
      select (is_other_event season_year) cat'.events
      ≡ select (is_other_event season_year) cat.events
  pub sessions : select is_other_session cat'.sessions ≡ select is_other_session cat.sessions
  pub foreign_sessions :
      (event : ℕ)
      → is_season_event season_year event cat'.events ≡ false
      → select (λ x. x.event_id == event) cat'.sessions
        ≡ select (λ x. x.event_id == event) cat.sessions
  pub deferred :
      select (is_other_deferred season_year) cat'.deferred
      ≡ select (is_other_deferred season_year) cat.deferred
  pub seasons : (year : ℕ) → year ≢ season_year → cat'.seasons year ≡ cat.seasons year

-- A snapshot that is persisted leaves as they were: the events of another source or season; the sessions
-- of another source, and those under an event id that no event of the season has in the end; the
-- deferred events of other seasons, all in their order; and the rows of other seasons.
pub persist_snapshot-others :
    (t at valid_until : ℕ) (schedule : NormalizedSeasonSchedule) (cat cat' : Catalogue)
    → persist_snapshot t at valid_until schedule cat ≡ ok cat'
    → LeavesOthers schedule.season_year cat cat'
unfolding persist_snapshot
persist_snapshot-others t at valid_until schedule cat cat' h =
    let year = schedule.season_year in
    elim (Outcome-cases (persist_events year at schedule.events cat)) [
      | inr bad ↦ absurd (ground arith)
      | inl (next, e) ↦
          let o = persist_events-Others year at schedule.events cat next e in
          let ds = schedule.deferred_future_events in
          let rows = persist_deferreds t year at ds next.deferred in
          record {
            events = ground (arith, o.events);
            sessions = ground (arith, o.sessions);
            foreign_sessions = λ event other. ground (
              arith,
              (persist_events-KeepsForeign year at schedule.events cat next e).sessions event,
            );
            deferred = ground (
              arith,
              select-stale year ds rows,
              persist_deferreds-others t year at ds next.deferred,
              o.deferred,
            );
            seasons = λ y apart. ground (arith, o.seasons);
          }
    ]
