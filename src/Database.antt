-- ===== src/Database.antt =====
-- The database: the schema of migrations/, and the engine that runs the statements.
pub mod Schema
pub mod Engine
pub mod Laws
pub mod Traced
pub mod Rows
