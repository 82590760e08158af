-- ===== src/Worker.antt =====
-- backend/app/ingestion/backfill_worker.py and archive_ingestion.py: the transactions of a worker, in
-- the order of the code. What other sessions, the heartbeat thread among them, make of the tables
-- between two transactions is a parameter.
pub mod Ingest
pub mod Process
pub mod Maintenance
pub mod Refinement
pub mod Superseded
pub mod Truthful
pub mod Covered
