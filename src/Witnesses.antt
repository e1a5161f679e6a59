-- ===== src/Witnesses.antt =====
-- The theorems at concrete inputs.
mod Samples
mod Transport
mod Spec
mod Pplx
mod Login
mod Servers
mod Platform
mod Dial
mod Commands
mod Concurrent
mod Tests
