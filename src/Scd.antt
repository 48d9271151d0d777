-- ===== src/Scd.antt =====
-- Strategic conflict detection: pkg/scd.
pub mod Models
pub mod Store
pub mod Server
pub mod OperationalIntents
pub mod Constraints
pub mod Subscriptions
pub mod Availability
