-- ===== src/Dashboard.antt =====
-- web/frontend/src/page/dashboard: the nodes of the lab, their deploy targets, and the page's
-- actions on them.
pub mod Types
pub mod Nodes
pub mod Target
pub mod Deploy
pub mod Instances
pub mod SdFetch
pub mod Actions
pub mod StopCalls
pub mod TearDown
pub mod Pending
mod Tests
