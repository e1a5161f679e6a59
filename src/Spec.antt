-- ===== src/Spec.antt =====
-- internal/spec/spec.go: the protocol constants, their overrides, and the lookup of a model.
pub mod Endpoints
pub mod Decode
pub mod Model
pub mod Load
