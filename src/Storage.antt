-- ===== src/Storage.antt =====
-- src/model_forge/storage: the SQLite repository for operational and formal state.
pub mod Text
pub mod Database
pub mod Schema
pub mod Commands
pub mod Runs
pub mod Executions
pub mod Publication
pub mod Settings
pub mod Artifacts
pub mod Paths
pub mod Operations
