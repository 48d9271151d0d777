-- ===== src/Models.antt =====
-- pkg/models and pkg/geo: identifiers, times, versions and volumes of space and time.
pub mod Chords
pub mod Covering
pub mod Times
pub mod TimeRanges
pub mod Platform
pub mod Ids
pub mod Versions
pub mod Volumes
pub mod Union
