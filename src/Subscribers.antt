-- ===== src/Subscribers.antt =====
-- web/frontend/src/page/subscribers: the subscriber form and the bulk operations.
pub mod BulkIds
pub mod RunLimited
pub mod Webconsole
pub mod Form
pub mod Selection
pub mod FormPage
