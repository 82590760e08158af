-- ===== src/Examples.antt =====
-- The theorems applied at concrete inputs.
mod Data
mod Backfill
mod Expiries
mod Retries
mod Policies
mod PitLane
mod Trackers
mod Seasons
mod Plannings
mod Workers
mod Views
mod Sealed
mod Feeds
mod Sweeps
mod Replacements
