-- ===== src/Http.antt =====
-- crates/api-http: the JSON-RPC surface in front of a session manager.
pub mod Json
pub mod Digits
pub mod Errors
pub mod Codec
pub mod Params
pub mod Receipts
pub mod Methods
pub mod Transactions
pub mod Rpc
pub mod Reads
pub mod SideTable
pub mod Writes
pub mod Surface
pub mod Every
pub mod ReadArms
pub mod Scope
pub mod ReadOnly
pub mod Cleanly
pub mod Refusals
pub mod Lowercase
pub mod Run
pub mod Sending
