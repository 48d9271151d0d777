-- ===== src/Scd/Models.antt =====
-- pkg/scd/models
pub mod Ovns
pub mod Availability
pub mod OperationalIntents
pub mod Constraints
pub mod Subscriptions
