-- ===== src/Scd/OperationalIntents.antt =====
-- pkg/scd/operational_intents_handler.go: the handlers of operational intent references.
pub mod Params
pub mod Attach
pub mod Key
pub mod Notify
pub mod Upsert
pub mod Delete
pub mod Read
