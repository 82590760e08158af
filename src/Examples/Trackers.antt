-- ===== src/Examples/Trackers.antt =====
-- The theorems on the sign-in and on the live positions.
use formula1_dashboard.Common.{
  ℕ, ◌+◌, ◌-◌, ◌/◌, ◌<◌, ◌≡◌, ◌↔◌, refl, true, false, some, List, [], ◌∷◌, arith,
}
use formula1_dashboard.Login.{
  Limiter, Clock, limiter, login, invalid_credentials, too_many_attempts,
}
use formula1_dashboard.Login.Lockout.{wrong, wrong_run, wrong_after_lockout}
use formula1_dashboard.Live.Positions.{
  Movement, movement, new_tracker, difference, recent_move_window,
}
use formula1_dashboard.Live.Positions.History.{Frame, play, movement_history}

abbrev at : ℕ → Clock
at t = record { failed_at = t; checked_at = t; told_at = t }

wrong_run_example :
    ((wrong (at 10 ∷ at 20 ∷ []) (at 30) limiter).0 ≡ invalid_credentials) ↔ (0 + 2 + 1 < 8)
wrong_run_example =
    wrong_run (at 10 ∷ at 20 ∷ []) (at 30) limiter refl (omega arith, (omega arith, tt)) omega arith

-- Eight failures, the last long ago: the lockout ended at 300000005.
abbrev worn : Limiter
worn = record limiter { failures = 8; locked_until = 300000005 }

wrong_after_lockout_example : login true false (at 900000000) worn ≡ (
  too_many_attempts ((900000000 + 300000000 - 900000000) / 1000000),
  record worn { failures = 9; locked_until = 900000000 + 300000000 },
)
wrong_after_lockout_example = wrong_after_lockout (at 900000000) worn omega arith omega arith

abbrev frames : List Frame
frames =
    record { received_at = 100; lines = record { number = 44; position = some 15 } ∷ [] }
    ∷ record {
      received_at = 200;
      lines =
          record { number = 1; position = some 1 } ∷ record { number = 44; position = some 3 } ∷ [];
    }
    ∷ []

movement_history_example :
    (m : Movement) × (movement 44 300 (play frames (new_tracker recent_move_window)) ≡ some m)
    × (m.baseline ≡ 15)
    × (m.current ≡ 3)
    × (m.places_gained ≡ difference 15 3)
movement_history_example = movement_history 44 300 recent_move_window 15 3 frames refl refl
