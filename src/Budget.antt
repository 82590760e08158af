-- ===== src/Budget.antt =====
-- backend/app/ingestion/request_budget.py, with the rows of backend/app/db/models/request_gate.py
-- and request_event.py. A transaction that holds the gate's row lock is one step; `now` is what the
-- database clock answers in it. A test `t >= now - d` is written `now <= t + d`.
pub mod Window
pub mod Capacity
pub mod Snapshot
use formula1_dashboard.Common.{
  ℕ, ◌+◌, ◌-◌, Bool, true, false, Option, none, some, List, [], ◌∷◌, ◌++◌, Outcome, ok, err, ltb,
  leb, ◌&&◌, if◌then◌else◌, select, count, min, max,
}
use formula1_dashboard.Policy.Number.{microseconds}
use formula1_dashboard.Policy.Settings.{ValidSettings}

pub data GateReason : Type 0 where
  pacing rate_limit budget : GateReason

pub record Gate : Type 0 where
  pub next_request_at : ℕ
  pub reason : GateReason

pub data Operation : Type 0 where
  archive schedule telemetry : Operation

pub record RequestEvent : Type 0 where
  pub operation : Operation
  pub requested_at : ℕ

-- The gate row of the archive source and the event table.
pub record Requests : Type 0 where
  pub gate : Option Gate
  pub events : List RequestEvent

pub data BudgetError : Type 0 where
  gate_missing : BudgetError
  no_release_timestamp : BudgetError
  exhausted : ℕ → BudgetError

-- `EVENT_RETENTION`, 24 hours.
abbrev pub event_retention : ℕ
event_retention = microseconds 86400

abbrev pub request_window : ValidSettings → ℕ
request_window s = microseconds s.fastf1_request_window_seconds

-- `requested_at >= cutoff` for the cutoff `now - window`.
abbrev pub in_window : ℕ → ℕ → RequestEvent → Bool
in_window now window e = leb now (e.requested_at + window)

-- The rows that the `delete` of `reserve` leaves.
abbrev pub is_retained : ℕ → RequestEvent → Bool
is_retained now e = leb now (e.requested_at + event_retention)

-- `_request_count`.
unfoldable pub request_count : ℕ → ℕ → List RequestEvent → ℕ
request_count now window events = count (in_window now window) events

-- `func.min` over the column.
unfoldable pub oldest : List RequestEvent → Option ℕ
oldest [] = none
oldest (e ∷ es) = some (elim (oldest es) [ none ↦ e.requested_at | some t ↦ min e.requested_at t ])

-- `_next_capacity_at`; `none` where it raises.
unfoldable pub next_capacity_at : ℕ → ℕ → List RequestEvent → Option ℕ
unfolding oldest
next_capacity_at now window events = elim (oldest (select (in_window now window) events)) [
  | none ↦ none
  | some t ↦ some (t + window)
]

-- `reason in {"rate_limit", "budget"}`.
abbrev pub is_pause : GateReason → Bool
is_pause pacing = false
is_pause rate_limit = true
is_pause budget = true

-- `if gate.reason == "budget"` after a grant.
unfoldable pub reopened : ℕ → Gate → GateReason → Gate
reopened now gate budget = record { next_request_at = now; reason = pacing }
reopened now gate _ = gate

-- The branch of `reserve` with no capacity left.
unfoldable pub refuse :
    ℕ → ValidSettings → Gate → Requests → Requests × Outcome BudgetError (Unit {0})
unfolding next_capacity_at
refuse now s gate st = elim (next_capacity_at now (request_window s) st.events) [
  | none ↦ (st, err no_release_timestamp)
  | some retry_at ↦ (
    record st {
      gate = some (record { next_request_at = max gate.next_request_at retry_at; reason = budget });
    },
    err (exhausted retry_at),
  )
]

-- The branch of `reserve` that writes the request down.
unfoldable pub grant : Operation → ℕ → Gate → Requests → Requests × Outcome BudgetError (Unit {0})
unfolding reopened
grant operation now gate st = (
  record {
    gate = some (reopened now gate gate.reason);
    events =
        select (is_retained now) (record { operation = operation; requested_at = now } ∷ st.events);
  },
  ok tt,
)

unfoldable pub reserve_at :
    Operation
    → ValidSettings
    → ℕ
    → Requests
    → Option Gate
    → Requests × Outcome BudgetError (Unit {0})
reserve_at operation s now st none = (st, err gate_missing)
reserve_at operation s now st (some gate) =
    if is_pause gate.reason && ltb now gate.next_request_at
    then (st, err (exhausted gate.next_request_at))
    else if leb s.fastf1_request_operational_ceiling
        (request_count now (request_window s) st.events)
    then refuse now s gate st
    else grant operation now gate st

-- `FastF1RequestBudget.reserve`. An exhausted budget raises after the transaction, so what was
-- written to the gate stays written; the other two errors roll back.
unfoldable pub reserve :
    Operation → ValidSettings → ℕ → Requests → Requests × Outcome BudgetError (Unit {0})
unfolding reserve_at refuse grant
reserve operation s now st = reserve_at operation s now st st.gate
