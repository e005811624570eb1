-- ===== src/Fetch.antt =====
-- crates/fetch: speculative reads, and the read-through cache in front of an upstream.
pub mod Keys
pub mod Speculation
pub mod ReadThrough
pub mod Retry
pub mod Backoff
pub mod Batch
pub mod Upstream
pub mod Filling
pub mod Blocking
pub mod Batches
pub mod Resolving
pub mod Flights
pub mod Claims
pub mod Landing
pub mod Flying
pub mod Places
pub mod Moves
pub mod Sharing
pub mod Placeholders
pub mod CacheSnapshot
pub mod Forking
pub mod Connections
pub mod Snapshotting
