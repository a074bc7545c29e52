-- ===== src/Tester.antt =====
-- The Throughput Tester pages: CPU lists, saved profiles and their names.
pub mod Cpus
pub mod Defaults
pub mod Api
pub mod Profiles
pub mod Sending
pub mod Fleet
pub mod Clock
pub mod Fields
pub mod Setup
pub mod RunApi
pub mod Run
pub mod Status
pub mod Bench
pub mod ProfileList
mod Tests
