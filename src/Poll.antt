-- ===== src/Poll.antt =====
-- The effect with which pages/Dashboard.tsx and pages/MigrationDetail.tsx of frontend/src ask the
-- server again and again.
pub mod Timers
pub mod Lifecycle
