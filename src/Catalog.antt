-- ===== src/Catalog.antt =====
-- core/dbcore/introspect.go, introspect_sqlserver.go, introspect_postgres.go, introspect_mysql.go,
-- introspect_sqlite.go and routines.go: the catalog queries of a session, over what
-- database/sql answers.
pub mod Driver
pub mod Sql
pub mod Order
pub mod Sqlite
pub mod MySql
pub mod Postgres
pub mod SqlServer
pub mod Results
pub mod Browse
pub mod Routines
pub mod Explore
pub mod Listing
pub mod Fixed
pub mod Scanning
pub mod Rowids
