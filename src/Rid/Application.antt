-- ===== src/Rid/Application.antt =====
-- pkg/rid/application. The logger is not modelled, nor is the error that `Interact` may return.
pub mod Areas
pub mod Subscriptions
pub mod Frame
pub mod Changes
pub mod Inserted
pub mod Success
pub mod Limit
pub mod Limited
pub mod Reachable
