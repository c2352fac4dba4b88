-- ===== src/Harness.antt =====
-- The services of src/model_forge/harness that prepare what a run publishes.
pub mod Indexes
