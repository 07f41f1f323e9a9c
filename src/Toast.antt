-- ===== src/Toast.antt =====
-- frontend/src/components/Toast.tsx: the notifications and their timers.
pub mod Provider
pub mod Schedule
pub mod Invariant
mod Tests
