-- ===== src/Budget/Capacity.antt =====
-- When capacity returns after the budget is exhausted.
use formula1_dashboard.Common.{
  ℕ, suc, ◌+◌, ◌≤◌, ◌<◌, ◌≡◌, ◌↔◌, refl, false, none, some, List, [], ◌∷◌, err, arith, ltb, count,
  select, ◌-◌, ◌&&◌, Option-cases, inl, inr, max,
}
use formula1_dashboard.Policy.Settings.{ValidSettings}
use formula1_dashboard.Budget.{
  is_pause, RequestEvent, Requests, Operation, Gate, budget, exhausted, request_window, in_window,
  oldest, reserve, request_count,
}

count-in_window_anti :
    (w now later : ℕ) (es : List RequestEvent)
    → now ≤ later
    → count (in_window later w) es ≤ count (in_window now w) es
unfolding count
count-in_window_anti w now later [] h = omega arith
count-in_window_anti w now later (e ∷ es) h = ground (arith, count-in_window_anti w now later es)

oldest-none :
    (w now : ℕ) (es : List RequestEvent)
    → oldest (select (in_window now w) es) ≡ none
    → count (in_window now w) es ≡ 0
unfolding count select oldest
oldest-none w now [] h = refl
oldest-none w now (e ∷ es) h = ground (arith, oldest-none w now es)

-- After the release of the oldest event in the window the window holds fewer events.
count_drops :
    (w now later : ℕ) (es : List RequestEvent) (t : ℕ)
    → now ≤ later
    → oldest (select (in_window now w) es) ≡ some t
    → t + w < later
    → count (in_window later w) es < count (in_window now w) es
unfolding count select oldest
count_drops w now later [] t h e k = cc
count_drops w now later (x ∷ es) t h e k =
    elim (Option-cases (oldest (select (in_window now w) es))) [
      | inl empty ↦ ground (arith, count-in_window_anti w now later es)
      | inr (u, found) ↦
          ground (arith, count-in_window_anti w now later es, count_drops w now later es u)
    ]

-- Up to that release it holds as many.
count_stays :
    (w now later : ℕ) (es : List RequestEvent) (t : ℕ)
    → oldest (select (in_window now w) es) ≡ some t
    → later ≤ t + w
    → count (in_window now w) es ≤ count (in_window later w) es
unfolding count select oldest
count_stays w now later [] t e k = cc
count_stays w now later (x ∷ es) t e k =
    elim (Option-cases (oldest (select (in_window now w) es))) [
      | inl empty ↦ ground (arith, oldest-none w now es)
      | inr (u, found) ↦ ground (arith, count_stays w now later es u)
    ]

oldest_found :
    (w now n : ℕ) (es : List RequestEvent)
    → suc n ≤ count (in_window now w) es
    → (t : ℕ) × (oldest (select (in_window now w) es) ≡ some t)
oldest_found w now n es h = elim (Option-cases (oldest (select (in_window now w) es))) [
  | inl e ↦ absurd (omega (arith, oldest-none w now es e))
  | inr found ↦ found
]

oldest-in_window :
    (w now : ℕ) (es : List RequestEvent) (t : ℕ)
    → oldest (select (in_window now w) es) ≡ some t
    → now ≤ t + w
unfolding select oldest
oldest-in_window w now [] t e = cc
oldest-in_window w now (x ∷ es) t e = elim (Option-cases (oldest (select (in_window now w) es))) [
  | inl empty ↦ ground arith
  | inr (u, found) ↦ ground (arith, oldest-in_window w now es u)
]

-- The gate as a refusal at `now` with release time `r` leaves it.
abbrev pub closed_until : ℕ → Gate → Gate
closed_until r gate = record { next_request_at = max gate.next_request_at r; reason = budget }

module _ (operation : Operation) (s : ValidSettings) (now later : ℕ) (st : Requests) (gate : Gate)
    (found : st.gate ≡ some gate)
    (unpaused : (is_pause gate.reason && ltb now gate.next_request_at) ≡ false)
    (ceiling_pos : 0 < s.fastf1_request_operational_ceiling)
    (full : s.fastf1_request_operational_ceiling ≤ request_count now (request_window s) st.events)
    (ahead : now ≤ later) where
  -- With the gate row there and not paused, a ceiling above 0 and the window full, `reserve` writes no
  -- event, closes the gate and raises with a release time `r` that is not in the past. At a time from
  -- now on the window holds fewer requests than now exactly after `r`.
  pub reserve_full :
      (r : ℕ) × (reserve operation s now st
        ≡ (record st { gate = some (closed_until r gate) }, err (exhausted r)))
      × (now ≤ r)
      × ((request_count later (request_window s) st.events
            < request_count now (request_window s) st.events)
          ↔ (r < later))
  unfolding reserve request_count
  reserve_full =
      let w = request_window s in
      let (t, e) =
        oldest_found w now (s.fastf1_request_operational_ceiling - 1) st.events (omega arith) in
      (
        t + w,
        ground arith,
        oldest-in_window w now st.events t e,
        (
          (λ fewer. ground (arith, count_stays w now later st.events t e)),
          (λ after. count_drops w now later st.events t ahead e after),
        ),
      )
