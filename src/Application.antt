-- ===== src/Application.antt =====
-- src/model_forge/application: services over the repository.
pub mod Lifecycle
pub mod Correction
