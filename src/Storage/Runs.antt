-- ===== src/Storage/Runs.antt =====
-- Runs, their events, manifests and submissions, from src/model_forge/storage/repository.py.
pub mod Swap
pub mod Creation
pub mod Cancellation
pub mod Sealing
pub mod Listing
pub mod Journal
pub mod Fence
