-- ===== src/Api.antt =====
-- internal/api: the Anthropic-compatible server.
pub mod Request
pub mod Concurrent
pub mod Events
pub mod Server
