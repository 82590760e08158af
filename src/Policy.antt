-- ===== src/Policy.antt =====
-- backend/app/ingestion/runtime_policy.py
pub mod Number
pub mod Bounds
pub mod Settings
pub mod Checkpoints
pub mod Validation
pub mod Retry
pub mod Delays
