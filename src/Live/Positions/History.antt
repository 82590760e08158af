-- ===== src/Live/Positions/History.antt =====
-- What a driver's movement says of the positions that were observed.
use formula1_dashboard.Common.{
  ℕ, ◌≡◌, refl, Option, none, some, List, [], ◌∷◌, ltb, ◌==◌, if◌then◌else◌, arith, Option-cases,
  inl, inr, is_none,
}
use formula1_dashboard.Live.Positions.{
  Tracker, Line, Movement, new_tracker, moved, observe_line, observe, movement, difference,
  recent_of,
}

-- One frame: when it was received, and its lines.
pub record Frame : Type 0 where
  pub received_at : ℕ
  pub lines : List Line

-- The tracker after a sequence of frames.
abbrev pub play : List Frame → Tracker → Tracker
play [] t = t
play (f ∷ fs) t = play fs (observe f.received_at f.lines t)

-- The position that a line shows of a driver, if it counts.
abbrev shown : ℕ → Line → Option ℕ
shown key line =
    if line.number == key
    then (elim line.position [ none ↦ none | some p ↦ if ltb p 1 then none else some p ])
    else none

-- The first and the last position that frames show of a driver.
abbrev first_of : Option ℕ → Option ℕ → Option ℕ
first_of none b = b
first_of (some a) b = some a

abbrev first_in : ℕ → List Line → Option ℕ
first_in key [] = none
first_in key (line ∷ lines) = first_of (shown key line) (first_in key lines)

abbrev last_in : ℕ → List Line → Option ℕ
last_in key [] = none
last_in key (line ∷ lines) = first_of (last_in key lines) (shown key line)

abbrev pub first_shown : ℕ → List Frame → Option ℕ
first_shown key [] = none
first_shown key (f ∷ fs) = first_of (first_in key f.lines) (first_shown key fs)

abbrev pub last_shown : ℕ → List Frame → Option ℕ
last_shown key [] = none
last_shown key (f ∷ fs) = first_of (last_shown key fs) (last_in key f.lines)

-- A driver has a baseline exactly when it has a position.
abbrev Paired : ℕ → Tracker → Type 0
Paired key t = is_none (t.baseline key) ≡ is_none (t.current key)

line_step :
    (key at : ℕ) (line : Line) (t : Tracker)
    → Paired key t
    → ((observe_line at line t).baseline key ≡ first_of (t.baseline key) (shown key line))
      × ((observe_line at line t).current key ≡ first_of (shown key line) (t.current key))
      × Paired key (observe_line at line t)
unfolding observe_line moved
line_step key at line t paired = elim (Option-cases line.position) [
  | inl e ↦ ground arith
  | inr (p, e) ↦ elim (Option-cases (t.current line.number)) [
    | inl e' ↦ ground arith
    | inr (c, e') ↦ ground arith
  ]
]

lines_step :
    (key at : ℕ) (lines : List Line) (t : Tracker)
    → Paired key t
    → ((observe at lines t).baseline key ≡ first_of (t.baseline key) (first_in key lines))
      × ((observe at lines t).current key ≡ first_of (last_in key lines) (t.current key))
      × Paired key (observe at lines t)
unfolding observe
lines_step key at [] t paired = ground arith
lines_step key at (line ∷ lines) t paired =
    let (b, c, next) = line_step key at line t paired in
    let (b', c', last) = lines_step key at lines (observe_line at line t) next in
    (ground arith, ground arith, last)

frames_step :
    (key : ℕ) (fs : List Frame) (t : Tracker)
    → Paired key t
    → ((play fs t).baseline key ≡ first_of (t.baseline key) (first_shown key fs))
      × ((play fs t).current key ≡ first_of (last_shown key fs) (t.current key))
frames_step key [] t paired = ground arith
frames_step key (f ∷ fs) t paired =
    let (b, c, next) = lines_step key f.received_at f.lines t paired in
    let (b', c') = frames_step key fs (observe f.received_at f.lines t) next in
    (ground arith, ground arith)

-- After any sequence of frames on a new tracker, a driver's movement goes from the first position
-- that the frames showed of it to the last, and the places gained are the first minus the last.
pub movement_history :
    (key now window first last : ℕ) (fs : List Frame)
    → first_shown key fs ≡ some first
    → last_shown key fs ≡ some last
    → (m : Movement) × (movement key now (play fs (new_tracker window)) ≡ some m)
      × (m.baseline ≡ first)
      × (m.current ≡ last)
      × (m.places_gained ≡ difference first last)
unfolding movement
movement_history key now window first last fs f l =
    let (b, c) = frames_step key fs (new_tracker window) refl in
    let t = play fs (new_tracker window) in
    (
      record {
        current = last;
        baseline = first;
        places_gained = difference first last;
        recent = recent_of t.window now (t.moved_at key) (t.direction key);
      },
      ground arith,
      refl,
      refl,
      refl,
    )
