-- ===== src/Orchestration.antt =====
-- src/model_forge/orchestration: the workflow protocol and the adapter that runs a phase's stages.
pub mod Protocol
pub mod Sequential
pub mod Registry
