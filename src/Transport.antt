-- ===== src/Transport.antt =====
-- internal/transport: the HTTP layer.
pub mod Space
pub mod Scan
pub mod Jar
pub mod Client
pub mod Sse
pub mod Http
pub mod Shared
pub mod Hello
pub mod Dial
pub mod Probe
