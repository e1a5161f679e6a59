-- ===== src/Cli.antt =====
-- cmd/pplx.
pub mod Print
pub mod Space
pub mod Shell
pub mod Commands
pub mod Show
pub mod Check
pub mod Bridge
pub mod Sync
pub mod Main
pub mod Probes
