-- ===== src/Sessions.antt =====
-- crates/session: the registry of sessions, its worker threads and the jobs they run.
pub mod Program
pub mod Attempt
pub mod Undo
pub mod Keeping
pub mod Reading
pub mod Agreement
pub mod Clean
pub mod Jobs
pub mod Execute
pub mod Handle
pub mod Worker
pub mod Accounts
pub mod Order
pub mod Progress
pub mod Rounds
pub mod Isolation
pub mod Reaping
pub mod Registered
pub mod Pinned
pub mod Calls
pub mod Manager
pub mod Requests
pub mod Harmless
pub mod Routing
pub mod Eviction
pub mod Resolver
