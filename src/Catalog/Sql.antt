-- ===== src/Catalog/Sql.antt =====
-- The catalog statements, by engine.
pub mod SqlServer
pub mod Postgres
pub mod MySql
pub mod Sqlite
