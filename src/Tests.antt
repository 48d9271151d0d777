-- ===== src/Tests.antt =====
-- Concrete runs, on a small airspace with two users.
pub mod Samples
pub mod Intents
pub mod Values
pub mod Notices
pub mod Queries
pub mod Zones
pub mod Subscribed
pub mod Remote
pub mod Upkeep
pub mod Served
