-- ===== src/Dashboard.antt =====
-- frontend/src/pages/Dashboard.tsx: the list of migrations, its pages, and the selection.
pub mod Pages
pub mod Paging
pub mod Numbers
pub mod Rows
pub mod Counter
pub mod Refinement
pub mod Requests
pub mod Deletion
pub mod Errors
pub mod Selection
pub mod Events
pub mod Table
pub mod Screen
pub mod RowEvents
mod ScreenTests
pub mod Invariant
pub mod Polling
mod Tests
mod RequestTests
