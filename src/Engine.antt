-- ===== src/Engine.antt =====
-- crates/engine: the shared base snapshot, the session overlay and the database that fuses them.
pub mod Types
pub mod Snapshot
pub mod Session
pub mod State
pub mod Files
pub mod Persist
pub mod Disk
pub mod RoundTrip
pub mod SnapshotStore
pub mod Resume
pub mod Database
pub mod Rollback
pub mod Branching
pub mod Views
pub mod Gathering
pub mod Restoring
