-- ===== src/Tester/Run.antt =====
-- web/frontend/src/page/tester/TesterRunPage.tsx: the page of the run on one tester.
pub mod Stream
pub mod Causes
pub mod Gnbs
pub mod Pill
mod Tests
