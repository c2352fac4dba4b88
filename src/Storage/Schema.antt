-- ===== src/Storage/Schema.antt =====
-- src/model_forge/storage/migrations.py: the tables of the repository, one record type for each row
-- type. A table is the list of its rows, the newest first; the inserts with their constraints are in
-- the children.
pub mod Rows
pub mod Tables
pub mod Control
pub mod Execution
pub mod Publication
