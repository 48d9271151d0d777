-- ===== src/Rid/V1.antt =====
-- pkg/rid/server/v1: version 1 of the API.
pub mod Conversions
pub mod Params
pub mod Areas
pub mod Subscriptions
