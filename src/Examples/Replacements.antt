-- ===== src/Examples/Replacements.antt =====
-- The theorem on the replacement of a session's archive.
use formula1_dashboard.Common.{◌≡◌, refl, false, none, some, [], ◌∷◌, ok}
use formula1_dashboard.Store.{Store, fastf1_archive, finalized, find_row, put_row}
use formula1_dashboard.Orchestration.Claim.{claim_next}
use formula1_dashboard.Orchestration.Completion.{complete_claim}
use formula1_dashboard.Orchestration.Replacement.{
  Origin, Snapshot, IsConsistent, replace_archive_session, replace_archive_session-IsConsistent,
}
use formula1_dashboard.Examples.Data.{
  settings, queued, unlocked, clock_at, claim_numbered, store_of,
}

abbrev origin : Origin
origin = record { source = fastf1_archive; record_state = finalized }

-- Two entries, one of a driver that is identified, with their results and two laps.
abbrev snapshot : Snapshot
snapshot = record {
  driver_ids = 44 ∷ [];
  entries =
      record { entry_key = 1; jolpica_driver_id = some 44; origin = origin }
      ∷ record { entry_key = 2; jolpica_driver_id = none; origin = origin }
      ∷ [];
  results =
      record { entry_key = 2; origin = origin } ∷ record { entry_key = 1; origin = origin } ∷ [];
  laps =
      record { entry_key = 1; lap_number = 1; origin = origin }
      ∷ record { entry_key = 1; lap_number = 2; origin = origin }
      ∷ [];
}

claimed : Store
unfolding claim_next
claimed = store_of queued (claim_next settings (clock_at 100) unlocked queued)

replaced : Store
unfolding replace_archive_session
replaced =
    store_of claimed
      (replace_archive_session 300 snapshot none none none false (claim_numbered 1 100) claimed)

replacing :
    replace_archive_session 300 snapshot none none none false (claim_numbered 1 100) claimed
    ≡ ok (300, replaced)
unfolding replaced claimed claim_next replace_archive_session complete_claim find_row put_row
replacing = refl

replace_archive_session-IsConsistent_example :
    (complete_claim 300 none none none false (claim_numbered 1 100) claimed ≡ ok (300, replaced))
    × IsConsistent snapshot
replace_archive_session-IsConsistent_example =
    replace_archive_session-IsConsistent 300 300 snapshot none none none false
      (claim_numbered 1 100) claimed replaced replacing
