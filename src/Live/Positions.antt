-- ===== src/Live/Positions.antt =====
-- backend/app/live/positions.py. The keys of the four dictionaries, driver numbers as texts, are
-- numbers here. A line is a driver with what `_whole` reads of its position, where a negative number
-- is 0; lines that are no mapping are left out.
pub mod History
use formula1_dashboard.Common.{
  ℕ, ◌+◌, ◌-◌, Bool, true, false, Option, none, some, List, [], ◌∷◌, ltb, leb, ◌==◌, if◌then◌else◌,
  ℤ, pos, negsuc,
}
use formula1_dashboard.Policy.Number.{microseconds}
use formula1_dashboard.Store.{update}

pub data Direction : Type 0 where
  up down : Direction

-- `PositionTracker`.
pub record Tracker : Type 0 where
  pub window : ℕ
  pub baseline : ℕ → Option ℕ
  pub current : ℕ → Option ℕ
  pub moved_at : ℕ → Option ℕ
  pub direction : ℕ → Option Direction

-- `RECENT_MOVE_WINDOW`.
abbrev pub recent_move_window : ℕ
recent_move_window = microseconds 12

abbrev pub new_tracker : ℕ → Tracker
new_tracker window = record {
  window = window;
  baseline = λ _. none;
  current = λ _. none;
  moved_at = λ _. none;
  direction = λ _. none;
}

pub record Line : Type 0 where
  pub number : ℕ
  pub position : Option ℕ

-- The dictionaries after a position that is at least 1.
unfoldable pub moved : ℕ → ℕ → ℕ → Option ℕ → Tracker → Tracker
moved at key position none t = record t {
  baseline = update t.baseline key (some position);
  current = update t.current key (some position);
}
moved at key position (some previous) t =
    if previous == position
    then record t { current = update t.current key (some position) }
    else record t {
      moved_at = update t.moved_at key (some at);
      direction = update t.direction key (some (if ltb position previous then up else down));
      current = update t.current key (some position);
    }

-- The body of the loop of `observe`.
unfoldable pub observe_line : ℕ → Line → Tracker → Tracker
unfolding moved
observe_line at line t = elim line.position [
  | none ↦ t
  | some position ↦
      if ltb position 1 then t else moved at line.number position (t.current line.number) t
]

-- `observe`.
unfoldable pub observe : ℕ → List Line → Tracker → Tracker
unfolding observe_line
observe at [] t = t
observe at (line ∷ lines) t = observe at lines (observe_line at line t)

-- `PositionMovement`.
pub record Movement : Type 0 where
  pub current : ℕ
  pub baseline : ℕ
  pub places_gained : ℤ
  pub recent : Option Direction

-- The difference of two positions.
abbrev pub difference : ℕ → ℕ → ℤ
difference a b = if leb b a then pos (a - b) else negsuc (b - a - 1)

-- `now - moved_at <= window`.
unfoldable pub recent_of : ℕ → ℕ → Option ℕ → Option Direction → Option Direction
recent_of window now none direction = none
recent_of window now (some at) direction = if leb now (at + window) then direction else none

unfoldable pub movement : ℕ → ℕ → Tracker → Option Movement
unfolding recent_of
movement key now t = elim (t.current key) [
  | none ↦ none
  | some current ↦ elim (t.baseline key) [
    | none ↦ none
    | some baseline ↦ some (record {
      current = current;
      baseline = baseline;
      places_gained = difference baseline current;
      recent = recent_of t.window now (t.moved_at key) (t.direction key);
    })
  ]
]
