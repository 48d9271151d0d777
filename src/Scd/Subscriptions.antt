-- ===== src/Scd/Subscriptions.antt =====
-- pkg/scd/subscriptions_handler.go
pub mod Params
pub mod Put
pub mod Read
pub mod Delete
pub mod Run
pub mod Effects
pub mod Removal
pub mod Covers
pub mod Queried
