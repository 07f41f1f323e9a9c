-- ===== src/Panels.antt =====
-- The panels of a finished migration, frontend/src/components.
pub mod Parity
pub mod Health
mod Tests
pub mod Cost
pub mod Export
pub mod Metrics
pub mod Status
pub mod Cards
pub mod Details
pub mod Widgets
