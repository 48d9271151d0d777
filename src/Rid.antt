-- ===== src/Rid.antt =====
-- Remote identification: pkg/rid.
pub mod Models
pub mod Store
pub mod Application
pub mod Garbage
pub mod Api
pub mod V1
