-- ===== src/Cli/Sync.antt =====
-- `pplx spec sync` of cmd/pplx/commands_spec.go.
pub mod Upstream
pub mod Drift
pub mod Overrides
pub mod Command
