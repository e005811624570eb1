-- ===== src/Binary.antt =====
-- crates/bin: what the binary keeps between two runs, and how it starts.
pub mod Cache
pub mod Start
pub mod Seeding
pub mod Union
pub mod Restart
