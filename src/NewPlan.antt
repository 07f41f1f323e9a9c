-- ===== src/NewPlan.antt =====
-- The form of frontend/src/pages/NewPlan.tsx: its fields, the plan that it builds and its handlers.
pub mod Steps
pub mod Digits
pub mod Canary
pub mod Form
pub mod Page
pub mod View
pub mod Ticked
pub mod Columns
pub mod Outcomes
pub mod Invariant
pub mod Shortcut
pub mod Messages
pub mod Flight
pub mod InFlight
pub mod Races
pub mod Drops
mod Tests
mod FlightTests
