-- ===== src/Storage/Publication.antt =====
-- The publication unit of work of src/model_forge/storage/repository.py: formal writes that share one
-- transaction and move the head of a project.
pub mod Session
pub mod Writing
pub mod Sealing
pub mod Ledger
pub mod Opening
pub mod Chain
pub mod Committed
pub mod Calls
pub mod Always
