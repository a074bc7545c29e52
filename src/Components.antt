-- ===== src/Components.antt =====
-- The components that the pages share: paging and notifications.
pub mod Paging
pub mod Notifications
pub mod ActiveRuns
mod Tests
