-- ===== src/Domain.antt =====
-- src/model_forge/domain: operational run types and lifecycle rules.
pub mod RunStatus
