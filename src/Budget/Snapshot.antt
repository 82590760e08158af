-- ===== src/Budget/Snapshot.antt =====
-- `read_fastf1_request_budget`: what it reports, and that it agrees with `reserve`.
use formula1_dashboard.Common.{
  ℕ, ◌+◌, ◌-◌, ◌≡◌, refl, Bool, true, false, Option, none, some, List, [], ◌∷◌, err, arith, leb,
  ltb, ◌&&◌, if◌then◌else◌, count, is_none, Outcome, ◌||◌, not,
}
use formula1_dashboard.Policy.Settings.{ValidSettings}
use formula1_dashboard.Budget.{
  RequestEvent, Requests, Operation, archive, schedule, telemetry, Gate, rate_limit, is_pause,
  BudgetError, exhausted, request_window, in_window, next_capacity_at, reserve, request_count,
}

pub data BudgetStatus : Type 0 where
  rate_limited paused warning available : BudgetStatus

pub record Snapshot : Type 0 where
  pub observed_at : ℕ
  pub observed_requests : ℕ
  pub archive_requests : ℕ
  pub schedule_requests : ℕ
  pub telemetry_requests : ℕ
  pub library_limit : ℕ
  pub operational_ceiling : ℕ
  pub warning_threshold : ℕ
  pub remaining_before_pause : ℕ
  pub next_capacity_at : Option ℕ
  pub cooldown : Option Gate
  pub status : BudgetStatus

abbrev is_operation : Operation → Operation → Bool
is_operation archive archive = true
is_operation schedule schedule = true
is_operation telemetry telemetry = true
is_operation _ _ = false

-- One group of the grouped count.
unfoldable pub operation_count : Operation → ℕ → ℕ → List RequestEvent → ℕ
operation_count operation now window events =
    count (λ e. in_window now window e && is_operation operation e.operation) events

-- `cooldown_until` and `cooldown_reason`, which are set together.
unfoldable pub cooldown_of : ℕ → Option Gate → Option Gate
cooldown_of now none = none
cooldown_of now (some gate) =
    if is_pause gate.reason && ltb now gate.next_request_at then some gate else none

abbrev is_rate_limit : Option Gate → Bool
is_rate_limit none = false
is_rate_limit (some gate) = elim gate.reason [ rate_limit ↦ true | _ ↦ false ]

unfoldable pub status_of : Option Gate → ℕ → ValidSettings → BudgetStatus
status_of cooldown observed s =
    if is_rate_limit cooldown
    then rate_limited
    else if not (is_none cooldown) || leb s.fastf1_request_operational_ceiling observed
    then paused
    else if leb s.fastf1_request_warning_threshold observed
    then warning
    else available

-- The call of `_next_capacity_at` and what is made of its answer; `none` where it raises.
unfoldable pub snapshot_capacity : ℕ → ValidSettings → ℕ → List RequestEvent → Option (Option ℕ)
unfolding next_capacity_at
snapshot_capacity now s observed events =
    if leb s.fastf1_request_operational_ceiling observed
    then elim (next_capacity_at now (request_window s) events) [
      | none ↦ none
      | some t ↦ some (some t)
    ]
    else some none

-- `read_fastf1_request_budget`; `none` where `_next_capacity_at` raises. The observed requests are
-- the sum of the groups.
unfoldable pub read_budget : ValidSettings → ℕ → Requests → Option Snapshot
unfolding cooldown_of status_of snapshot_capacity
read_budget s now st =
    let w = request_window s in
    let archived = operation_count archive now w st.events in
    let scheduled = operation_count schedule now w st.events in
    let measured = operation_count telemetry now w st.events in
    let observed = archived + scheduled + measured in
    elim (snapshot_capacity now s observed st.events) [
      | none ↦ none
      | some capacity ↦ some (record {
        observed_at = now;
        observed_requests = observed;
        archive_requests = archived;
        schedule_requests = scheduled;
        telemetry_requests = measured;
        library_limit = s.fastf1_request_library_limit;
        operational_ceiling = s.fastf1_request_operational_ceiling;
        warning_threshold = s.fastf1_request_warning_threshold;
        remaining_before_pause = s.fastf1_request_operational_ceiling - observed;
        next_capacity_at = capacity;
        cooldown = cooldown_of now st.gate;
        status = status_of (cooldown_of now st.gate) observed s;
      })
    ]

-- The groups add up to the number that `reserve` compares with the ceiling.
pub groups-sum :
    (now w : ℕ) (es : List RequestEvent)
    → operation_count archive now w es
        + operation_count schedule now w es
        + operation_count telemetry now w es
      ≡ request_count now w es
unfolding operation_count request_count count
groups-sum now w [] = refl
groups-sum now w (e ∷ es) = ground (arith, groups-sum now w es)

-- A snapshot that shows no capacity.
abbrev pub is_stopped : BudgetStatus → Bool
is_stopped rate_limited = true
is_stopped paused = true
is_stopped warning = false
is_stopped available = false

-- A reservation that raised the budget's own error.
abbrev pub is_exhausted : Outcome BudgetError (Unit {0}) → Bool
is_exhausted (err (exhausted r)) = true
is_exhausted _ = false

-- A snapshot says "rate_limited" or "paused" exactly when a request at the same moment is refused
-- because of a pause or of the budget, provided that the gate row is there.
pub read_budget-reserve :
    (operation : Operation) (s : ValidSettings) (now : ℕ) (st : Requests) (gate : Gate)
    (snap : Snapshot)
    → st.gate ≡ some gate
    → read_budget s now st ≡ some snap
    → is_stopped snap.status ≡ is_exhausted (reserve operation s now st).1
unfolding read_budget reserve
read_budget-reserve operation s now st gate snap g e =
    ground (arith, groups-sum now (request_window s) st.events)
