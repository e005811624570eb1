-- ===== src/Mcp.antt =====
-- crates/api-mcp: the tools of the MCP surface in front of a session manager.
pub mod Tool
pub mod Args
pub mod Transfers
pub mod Tools
pub mod Every
pub mod Scope
pub mod Atomic
pub mod Refused
pub mod Twins
pub mod Pricing
