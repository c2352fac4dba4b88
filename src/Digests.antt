-- ===== src/Digests.antt =====
-- src/model_forge/digests: the canonical form of JSON values.
pub mod Json
pub mod Decimal
pub mod Utf16
pub mod Canonical
pub mod Supported
pub mod Reordering
