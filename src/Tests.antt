-- ===== src/Tests.antt =====
-- Runs of the code on concrete data, and the theorems applied to them.
pub mod Data
pub mod Deliveries
pub mod Sending
pub mod Campaigns
pub mod Locks
pub mod Dns
pub mod Bounces
pub mod Walks
pub mod Retention
