-- ===== src/Shell.antt =====
-- The application around the pages: who is logged in (frontend/src/App.tsx, pages/LoginPage.tsx) and the
-- tour for new users (components/OnboardingWizard.tsx).
pub mod App
pub mod Session
pub mod Tour
pub mod TerminalLines
pub mod Terminal
pub mod Landing
mod Tests
