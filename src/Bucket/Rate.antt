-- ===== src/Bucket/Rate.antt =====
-- The rate limit: what a consumer charges to its coordinator.
pub mod Untouched
pub mod Charges
pub mod Limit
pub mod Shared
pub mod Memory
pub mod Database
pub mod Redis
pub mod Together
pub mod Mqtt
