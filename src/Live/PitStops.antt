-- ===== src/Live/PitStops.antt =====
-- backend/app/live/pit_stops.py. The keys, driver numbers as texts, are numbers here. A line is a
-- driver with what it says of `InPit`; lines without it, and lines that are no mapping, are left out.
-- `round_seconds` is the rounding of a duration, in microseconds, to a tenth of a second.
pub mod Served
use text.Mathlib.Text.{◌==◌ as str_eq}
use formula1_dashboard.Common.{
  ℕ, ◌-◌, String, Bool, true, false, not, Option, none, some, List, [], ◌∷◌, ◌++◌, leb, ◌&&◌, ◌||◌,
  if◌then◌else◌,
}
use formula1_dashboard.Policy.Number.{microseconds}
use formula1_dashboard.Store.{update}

-- `IMPLAUSIBLE_VISIT`.
abbrev pub implausible_visit : ℕ
implausible_visit = microseconds 120

-- `PitStop`.
pub record PitStop : Type 0 where
  pub racing_number : ℕ
  pub seconds : ℕ
  pub lap_number : Option ℕ
  pub entered_at : ℕ

-- `_Visit`.
pub record Visit : Type 0 where
  pub started_at : ℕ
  pub session_status : String
  pub lap_number : Option ℕ
  pub observed_entry : Bool

-- `PitStopTracker`.
pub record Tracker : Type 0 where
  pub limit : ℕ
  pub visits : ℕ → Option Visit
  pub stops : List PitStop

abbrev pub new_tracker : ℕ → Tracker
new_tracker limit = record { limit = limit; visits = λ _. none; stops = [] }

-- `line.get("InPit")`: true, false, or neither.
pub data InPit : Type 0 where
  inside outside unclear : InPit

pub record Line : Type 0 where
  pub number : ℕ
  pub in_pit : InPit

-- The arguments of `observe` beside the lines; `moment` is the feed's clock where it gives one.
pub record Frame : Type 0 where
  pub moment : ℕ
  pub session_status : String
  pub initial : Bool
  pub laps : ℕ → Option ℕ
  pub lines : List Line

-- Whether a visit that ends at the frame counts as a stop.
unfoldable pub counts_as_stop : ℕ → Frame → Visit → Bool
counts_as_stop limit frame visit =
    visit.observed_entry
    && not (leb frame.moment visit.started_at || leb limit (frame.moment - visit.started_at))
    && (str_eq frame.session_status "" || str_eq visit.session_status frame.session_status)

module _ (round_seconds : ℕ → ℕ) where
  -- The stop of a visit that ends at the frame.
  unfoldable pub stop_of : ℕ → Frame → Visit → PitStop
  stop_of number frame visit = record {
    racing_number = number;
    seconds = round_seconds (frame.moment - visit.started_at);
    lap_number = visit.lap_number;
    entered_at = visit.started_at;
  }

  -- The end of a visit, if there is one.
  unfoldable pub leave : ℕ → Frame → Option Visit → Tracker → Tracker
  unfolding counts_as_stop stop_of
  leave number frame none t = t
  leave number frame (some visit) t =
      if counts_as_stop t.limit frame visit
      then record t {
        visits = update t.visits number none;
        stops = t.stops ++ (stop_of number frame visit ∷ []);
      }
      else record t { visits = update t.visits number none }

  -- The body of the loop of `observe`.
  unfoldable pub observe_line : Frame → Line → Tracker → Tracker
  unfolding leave
  observe_line frame line t = elim line.in_pit [
    | inside ↦ record t {
      visits = update t.visits line.number (
          some (record {
            started_at = frame.moment;
            session_status = frame.session_status;
            lap_number = frame.laps line.number;
            observed_entry = not frame.initial;
          }));
    }
    | outside ↦ leave line.number frame (t.visits line.number) t
    | unclear ↦ t
  ]

  unfoldable pub observe_lines : Frame → List Line → Tracker → Tracker
  unfolding observe_line
  observe_lines frame [] t = t
  observe_lines frame (line ∷ lines) t = observe_lines frame lines (observe_line frame line t)

  -- `observe`, frame after frame.
  unfoldable pub observe : List Frame → Tracker → Tracker
  unfolding observe_lines
  observe [] t = t
  observe (frame ∷ frames) t = observe frames (observe_lines frame frame.lines t)
