-- ===== src/Prometheus.antt =====
-- frontend/src/lib/prometheus.ts: the parser of the exposition text and the extraction of a
-- migration's metrics.
pub mod Floats
pub mod Labels
pub mod Parse
pub mod Query
pub mod Print
pub mod Roundtrip
pub mod Document
pub mod Updates
pub mod Numbers
pub mod Transitions
mod Tests
