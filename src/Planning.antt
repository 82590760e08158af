-- ===== src/Planning.antt =====
-- backend/app/ingestion/season_backfill.py, with the tables that it discovers
-- (backend/app/db/models/season.py, event.py, session.py, deferred_event.py) and the schedule records
-- of backend/app/ingestion/fastf1_schedule.py. The advisory lock makes the planning transactions of
-- one season a sequence. `created_at` of the tables is left out: nothing reads it.
pub mod Catalogue
pub mod Discovery
pub mod Eligibility
pub mod Queue
pub mod Ensure
pub mod Kept
pub mod Foreign
pub mod Sources
pub mod Added
pub mod Writes
pub mod Errors
pub mod Attempts
pub mod ActiveJobs
pub mod Settling
pub mod Replanning
