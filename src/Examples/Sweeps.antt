-- ===== src/Examples/Sweeps.antt =====
-- The theorem on the retention of session logs.
use formula1_dashboard.Common.{ℕ, ◌≡◌, refl, true, false, some, List, [], ◌∷◌, ok}
use formula1_dashboard.Policy.Retry.{DateTime}
use formula1_dashboard.Live.Retention.{File, SweepResult, sweep_expired_logs}
use formula1_dashboard.Live.Retention.Swept.{find_file, spared, sweep-exact}

abbrev now : DateTime
now = record { instant = 100; has_timezone = true }

-- A log too old to keep, a file that is no log, a recent log, and an old log that cannot be removed.
abbrev files : List File
files =
    record { name = 4; is_log = true; modified_at = some 60; removable = true }
    ∷ record { name = 2; is_log = false; modified_at = some 10; removable = true }
    ∷ record { name = 3; is_log = true; modified_at = some 70; removable = true }
    ∷ record { name = 1; is_log = true; modified_at = some 5; removable = false }
    ∷ []

sweep-exact_example :
    (result : SweepResult) × (left : List File) × (sweep_expired_logs now 30 (some files)
      ≡ ok (result, some left))
    × ((name : ℕ) → find_file name left ≡ spared now.instant 30 (find_file name files))
unfolding find_file
sweep-exact_example = sweep-exact now 30 files refl refl (refl, (refl, (refl, (refl, tt))))
