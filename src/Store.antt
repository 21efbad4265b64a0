-- ===== src/Store.antt =====
-- store/: the types of the repository contract.
pub mod Enums
pub mod Errors
pub mod Time
pub mod Delivery
pub mod Campaign
