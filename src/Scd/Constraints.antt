-- ===== src/Scd/Constraints.antt =====
-- pkg/scd/constraints_handler.go: the creation, update, deletion, get and query of constraints.
pub mod Params
pub mod Put
pub mod Delete
pub mod Run
pub mod Effects
pub mod Read
pub mod Refinement
