-- ===== src/Graph.antt =====
-- The drawing of the states, frontend/src/components/StateMachineGraph.tsx.
pub mod Drawing
pub mod Marks
