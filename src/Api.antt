-- ===== src/Api.antt =====
-- frontend/src/lib/api.ts: the client of the engine's HTTP interface.
pub mod Effects
pub mod Uri
pub mod Client
pub mod Calls
pub mod Session
pub mod Sent
pub mod Authorization
pub mod Failures
pub mod PathSafety
mod Tests
