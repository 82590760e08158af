-- ===== src/Orchestration/Keeps.antt =====
-- Every operation keeps the invariant.
pub mod Claims
pub mod Recoveries
pub mod Leases
