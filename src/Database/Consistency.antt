-- ===== src/Database/Consistency.antt =====
-- The constraints of migrations/001_initial_schema.sql as a property of a whole database: what the
-- statements of app/repositories keep.
pub mod Columns
pub mod References
pub mod Laws
pub mod Blocks
pub mod Edges
pub mod Whole
pub mod Uniques
pub mod Children
pub mod Wholes
pub mod Leaves
pub mod Forgotten
pub mod Keeps
