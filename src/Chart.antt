-- ===== src/Chart.antt =====
-- What frontend/src/components/DisasterAvertedChart.tsx draws on its canvas, and the sparklines and the gauge of
-- frontend/src/pages/Dashboard.tsx.
pub mod Reals
pub mod Drawing
pub mod Markers
pub mod Spark
pub mod Series
pub mod Panel
mod Tests
