-- ===== src/Examples/PitLane.antt =====
-- The theorem on pit stops.
use formula1_dashboard.Common.{ℕ, ◌/◌, All, List, [], ◌∷◌, none, false}
use formula1_dashboard.Live.PitStops.{
  Frame, inside, outside, observe, new_tracker, implausible_visit,
}
use formula1_dashboard.Live.PitStops.Served.{IsServed, observe-IsServed}

abbrev tenths : ℕ → ℕ
tenths e = e / 100000

-- Car 44 enters at 10 s and leaves at 32.4 s.
abbrev laps : List Frame
laps =
    record {
      moment = 10000000;
      session_status = "Started";
      initial = false;
      laps = λ _. none;
      lines = record { number = 44; in_pit = inside } ∷ [];
    }
    ∷ record {
      moment = 32400000;
      session_status = "Started";
      initial = false;
      laps = λ _. none;
      lines = record { number = 44; in_pit = outside } ∷ [];
    }
    ∷ []

observe-IsServed_example :
    All
      (IsServed tenths implausible_visit laps)
      (observe tenths laps (new_tracker implausible_visit)).stops
observe-IsServed_example = observe-IsServed tenths implausible_visit laps
