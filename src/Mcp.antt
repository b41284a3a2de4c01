-- ===== src/Mcp.antt =====
-- internal/mcp: the health of the configured servers and the registry of their tools.
pub mod State
pub mod Registry
pub mod Resources
pub mod Sessions
pub mod Overview
pub mod Login
