-- ===== src/Budget/Window.antt =====
-- The rolling window: however reservations and the clock interleave, no window of the configured
-- length sees more granted requests than the operational ceiling.
use formula1_dashboard.Common.{
  ℕ, ◌+◌, ◌≤◌, ◌<◌, ◌≡◌, refl, Bool, true, Option, none, some, List, [], ◌∷◌, ok, err, arith, leb,
  ltb, ◌&&◌, All, count, select, Outcome, Bool-cases, inl, inr,
}
use formula1_dashboard.Policy.Settings.{ValidSettings}
use formula1_dashboard.Budget.{
  is_pause, RequestEvent, Requests, Operation, Gate, BudgetError, event_retention, request_window,
  in_window, is_retained, reserve, reserve_at, grant, refuse, request_count,
}

-- One attempt to reserve: for which operation, and when by the database clock.
pub record Attempt : Type 0 where
  pub operation : Operation
  pub at : ℕ

-- The granted instants of a run, newest first, and the state after it.
pub record Run : Type 0 where
  pub requests : Requests
  pub granted : List ℕ

step_granted : Outcome BudgetError (Unit {0}) → ℕ → List ℕ → List ℕ
step_granted (ok _) now granted = now ∷ granted
step_granted (err _) now granted = granted

-- Reservations, each in a transaction of its own, in the order in which they get the gate's lock.
pub run : ValidSettings → Run → List Attempt → Run
unfolding step_granted
run s r [] = r
run s r (a ∷ attempts) =
    let (requests, result) = reserve a.operation s a.at r.requests in
    run s (record { requests = requests; granted = step_granted result a.at r.granted }) attempts

-- The clock of the database does not run backwards between the transactions.
abbrev pub InOrder : ℕ → List Attempt → Type 0
InOrder now [] = Unit
InOrder now (a ∷ attempts) = (now ≤ a.at) × InOrder a.at attempts

-- Granted instants in the window that ends at `t`.
abbrev pub inside : ℕ → ℕ → ℕ → Bool
inside window t x = leb t (x + window) && leb x t

abbrev recent : ℕ → ℕ → ℕ → Bool
recent window now x = leb now (x + window)

record Inv (window ceiling now : ℕ) (events : List RequestEvent) (granted : List ℕ) : Type 0 where
  past : All (λ x. x ≤ now) granted
  stored : (n : ℕ) → now ≤ n → count (recent window n) granted ≤ count (in_window n window) events
  bounded : (t : ℕ) → count (inside window t) granted ≤ ceiling

count_mono {ℓ} :
    {A : Type ℓ} (p q : A → Bool) (xs : List A)
    → ((x : A) → p x ≡ true → q x ≡ true)
    → count p xs ≤ count q xs
unfolding count
count_mono p q [] h = omega arith
count_mono p q (x ∷ xs) h = ground (arith, h x, count_mono p q xs h)

-- With the window inside the retention time, deletion does not touch what the window counts.
count-retained :
    (window now n : ℕ) (es : List RequestEvent)
    → window ≤ event_retention
    → now ≤ n
    → count (in_window n window) (select (is_retained now) es) ≡ count (in_window n window) es
unfolding count select
count-retained window now n [] h k = refl
count-retained window now n (e ∷ es) h k = ground (arith, count-retained window now n es)

All-later : (a b : ℕ) (xs : List ℕ) → a ≤ b → All (λ x. x ≤ a) xs → All (λ x. x ≤ b) xs
All-later a b [] h k = tt
All-later a b (x ∷ xs) h k = (omega arith, All-later a b xs h k.1)

-- All that was granted lies in the past, so the end of the window does not matter.
inside-le-recent :
    (window t now : ℕ) (xs : List ℕ)
    → now ≤ t
    → count (inside window t) xs ≤ count (recent window now) xs
unfolding count
inside-le-recent window t now xs h =
    count_mono (inside window t) (recent window now) xs (λ x e. ground arith)

Inv-later :
    (window ceiling a b : ℕ) (es : List RequestEvent) (g : List ℕ)
    → a ≤ b
    → Inv window ceiling a es g
    → Inv window ceiling b es g
Inv-later window ceiling a b es g h inv = record {
  past = All-later a b g h inv.past;
  stored = λ n k. inv.stored n (omega arith);
  bounded = inv.bounded;
}

module _ (window ceiling now : ℕ) (operation : Operation) (es : List RequestEvent)
    (g : List ℕ) where
  abbrev kept : List RequestEvent
  kept = select (is_retained now) (record { operation = operation; requested_at = now } ∷ es)

  stored-grant :
      window ≤ event_retention
      → Inv window ceiling now es g
      → (n : ℕ) → now ≤ n
      → count (recent window n) (now ∷ g) ≤ count (in_window n window) kept
  unfolding count
  stored-grant small inv n k = ground (
    arith,
    inv.stored n k,
    count-retained window now n (record { operation = operation; requested_at = now } ∷ es),
  )

  bounded-grant :
      Inv window ceiling now es g
      → count (in_window now window) es < ceiling
      → (t : ℕ) → count (inside window t) (now ∷ g) ≤ ceiling
  unfolding count
  bounded-grant inv room t =
      ground (arith, inv.bounded t, inv.stored now, inside-le-recent window t now g)

  Inv-grant :
      window ≤ event_retention
      → Inv window ceiling now es g
      → count (in_window now window) es < ceiling
      → Inv window ceiling now kept (now ∷ g)
  Inv-grant small inv room = record {
    past = (omega arith, inv.past);
    stored = stored-grant small inv;
    bounded = bounded-grant inv room;
  }

module _ (operation : Operation) (s : ValidSettings) (now : ℕ) (st : Requests) (g : List ℕ) where
  abbrev ceiling : ℕ
  ceiling = s.fastf1_request_operational_ceiling

  abbrev window : ℕ
  window = request_window s

  -- A refused reservation leaves the events alone.
  refuse_granted :
      (gate : Gate)
      → ((refuse now s gate st).0.events ≡ st.events)
        × (step_granted (refuse now s gate st).1 now g ≡ g)
  unfolding refuse step_granted
  refuse_granted gate = ground arith

  -- The state and the grants after a transaction with this outcome keep the invariant.
  abbrev IsKept : Requests × Outcome BudgetError (Unit {0}) → Type 0
  IsKept r = Inv window ceiling now r.0.events (step_granted r.1 now g)

  Inv-refuse : (gate : Gate) → Inv window ceiling now st.events g → IsKept (refuse now s gate st)
  Inv-refuse gate inv = rw ((refuse_granted gate).0, (refuse_granted gate).1) inv

  Inv-reserve_at :
      (gate : Option Gate)
      → window ≤ event_retention
      → Inv window ceiling now st.events g
      → IsKept (reserve_at operation s now st gate)
  unfolding reserve_at grant step_granted request_count
  Inv-reserve_at none small inv = inv
  Inv-reserve_at (some gate) small inv =
      elim (Bool-cases (is_pause gate.reason && ltb now gate.next_request_at)) [
        | inl paused ↦ rw paused inv
        | inr open_gate ↦
            rw open_gate (elim (Bool-cases (leb ceiling (count (in_window now window) st.events))) [
              | inl full ↦ rw full (Inv-refuse gate inv)
              | inr room ↦
                  rw room
                    (Inv-grant window ceiling now operation st.events g small inv (ground arith))
            ])
      ]

run-Inv :
    (s : ValidSettings) (now : ℕ) (r : Run) (attempts : List Attempt)
    → request_window s ≤ event_retention
    → InOrder now attempts
    → Inv (request_window s) s.fastf1_request_operational_ceiling now r.requests.events r.granted
    → (t : ℕ)
    → count (inside (request_window s) t) (run s r attempts).granted
      ≤ s.fastf1_request_operational_ceiling
unfolding run reserve
run-Inv s now r [] small order inv t = inv.bounded t
run-Inv s now r (a ∷ attempts) small order inv t =
    run-Inv s a.at _ attempts small order.1
      (Inv-reserve_at a.operation s a.at r.requests r.granted r.requests.gate small
        (Inv-later _ _ now a.at r.requests.events r.granted order.0 inv))
      t

abbrev pub opened : Gate → Run
opened gate = record { requests = record { gate = some gate; events = [] }; granted = [] }

-- From an empty event table, whatever the gate holds and whichever operations reserve in whatever
-- order at times that do not run backwards, no window of the configured length contains more granted
-- requests than the operational ceiling, if the window is at most the 24 hours that events are
-- retained.
pub run_window :
    (s : ValidSettings) (now : ℕ) (gate : Gate) (attempts : List Attempt)
    → request_window s ≤ event_retention
    → InOrder now attempts
    → (t : ℕ)
    → count (inside (request_window s) t) (run s (opened gate) attempts).granted
      ≤ s.fastf1_request_operational_ceiling
unfolding count
run_window s now gate attempts small order t =
    run-Inv s now (opened gate) attempts small order
      (record { past = tt; stored = λ n k. omega arith; bounded = λ u. omega arith }) t
