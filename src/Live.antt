-- ===== src/Live.antt =====
-- The trackers of a live session.
pub mod Positions
pub mod PitStops
pub mod CurrentView
pub mod Frames
pub mod Retention
