-- ===== src/Mcp.antt =====
-- internal/mcp/server.go.
pub mod Render
pub mod Tools
pub mod Server
