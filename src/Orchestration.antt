-- ===== src/Orchestration.antt =====
-- backend/app/ingestion/backfill_orchestration.py, one child for each operation. Each operation runs
-- in one transaction: it returns its answer with the new store, or an error that rolls it back.
-- Clock readings are arguments. The rows of the code are locked for the time of the transaction, so
-- a sequence of operations is a sequence of steps on the store.
pub mod Rows
pub mod Claim
pub mod Heartbeat
pub mod Failure
pub mod Recovery
pub mod Aggregation
pub mod Completion
pub mod Replacement
pub mod Stale
pub mod Owned
pub mod Writes
pub mod Narrows
pub mod Invariant
pub mod Keeps
pub mod Steps
pub mod Tokens
pub mod Fencing
pub mod Dispositions
pub mod Expiry
pub mod Gates
pub mod Progress
