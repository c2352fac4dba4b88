-- ===== src/Diagnostics.antt =====
-- src/model_forge/diagnostics: the lane of diagnostic invocations.
pub mod States
pub mod Store
