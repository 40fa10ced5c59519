-- ===== src/Mcp.antt =====
-- The tool server (mcp/): how the governance engine guards a tool call.
pub mod GovernanceMiddleware
pub mod ToolRegistry
pub mod Clearance
pub mod Server
mod Examples
