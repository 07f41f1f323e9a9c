-- ===== src/Detail.antt =====
-- The page of one migration, frontend/src/pages/MigrationDetail.tsx.
pub mod View
pub mod Invariant
pub mod Abort
pub mod Flow
pub mod Tables
pub mod Safety
pub mod Before
mod Tests
