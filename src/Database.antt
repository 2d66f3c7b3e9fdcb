-- ===== src/Database.antt =====
-- The database under the repositories: rows, schema, statements and the unit of work.
pub mod Engine
pub mod Schema
pub mod Rows
pub mod Statement
pub mod RowEquality
pub mod Constraints
pub mod Tables
pub mod Uow
pub mod Consistency
pub mod Pool
