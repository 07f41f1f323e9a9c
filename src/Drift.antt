-- ===== src/Drift.antt =====
-- The drift scan, frontend/src/pages/DriftScanPage.tsx.
pub mod Scan
pub mod Report
mod Tests
