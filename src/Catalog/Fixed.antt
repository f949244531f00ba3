-- ===== src/Catalog/Fixed.antt =====
-- core/dbcore/introspect.go, routines.go and protocol.go: the statements that the explorer sends,
-- against the names that a request holds.
pub mod Strings
pub mod Tables
pub mod Explored
pub mod Allowed
use db_crawler.Catalog.Browse.{
  query_strings, databases, databases_of, current_database, current_of, schemas, schemas_of, tables,
  tables_of, columns, columns_of, indexes, indexes_of, foreign_keys, foreign_keys_of, table,
}
use db_crawler.Catalog.Driver.{Reading, Driver, text, null_text, scanned, map_ok, grouped}
use db_crawler.Catalog.Explore.{explorer, server_version, version_of, ask_version}
use db_crawler.Catalog.MySql.{mysql_table, mysql_column, mysql_index_row, mysql_fk_row}
use db_crawler.Catalog.Order.{sort_tables}
use db_crawler.Catalog.Postgres.{
  postgres_table, postgres_column, postgres_index_row, postgres_fk_row,
}
use db_crawler.Catalog.Results.{valid, first, one_value, readable, banner, detail_of, listing}
use db_crawler.Catalog.Routines.{
  objects, routine_row, query_string, routines, routines_of, routine_definition, definition_of,
}
use db_crawler.Catalog.Sql.MySql.{
  mysql_databases_query, mysql_current_query, mysql_tables_query, mysql_columns_query,
  mysql_indexes_query, mysql_foreign_keys_query, mysql_routines_query, mysql_definition_query,
}
use db_crawler.Catalog.Sql.Postgres.{
  postgres_databases_query, postgres_current_query, postgres_schemas_query, postgres_tables_query,
  postgres_columns_query, postgres_indexes_query, postgres_foreign_keys_query,
  postgres_routines_query, postgres_definition_query,
}
use db_crawler.Catalog.Sql.SqlServer.{
  sqlserver_databases_query, sqlserver_current_query, sqlserver_schemas_query,
  sqlserver_tables_query, sqlserver_columns_query, sqlserver_indexes_query,
  sqlserver_foreign_keys_query, sqlserver_routines_query, sqlserver_definition_query,
}
use db_crawler.Catalog.Sql.Sqlite.{
  sqlite_databases_query, sqlite_tables_query, sqlite_columns_query, sqlite_indexes_query,
  sqlite_foreign_keys_query,
}
use db_crawler.Catalog.SqlServer.{
  sqlserver_table, sqlserver_column, sqlserver_index_row, sqlserver_fk_row,
}
use db_crawler.Catalog.Sqlite.{
  sqlite_table, sqlite_column, sqlite_index_row, sqlite_fk_row, mark_rowids,
}
use db_crawler.Engine.{Engine, sqlserver, postgresql, mysql, sqlite}
use db_crawler.Introspect.{
  TableInfo, ColumnInfo, IndexInfo, ForeignKeyInfo, IndexRow, FkRow, group_index_rows,
  group_foreign_key_rows,
}
use db_crawler.Prelude.{ℕ, ◌≡◌, refl, ap, List, [], ◌∷◌, Option, none, some, ◌⊎◌, inl, inr}
use db_crawler.Protocol.{Cause, Explorer}
use db_crawler.Session.{Session}
use db_crawler.Text.{Text, Unicode, codes}

-- What the explorer asks a server for.
pub data Asked : Type 0 where
  list_databases current list_schemas list_tables list_columns list_indexes list_keys : Asked
  list_routines definition version : Asked

-- The statement that asks for it: a text without a place for a name.
unfoldable pub statement_for : Engine → Asked → Option Text
statement_for sqlserver Asked.list_databases = some sqlserver_databases_query
statement_for sqlserver Asked.current = some sqlserver_current_query
statement_for sqlserver Asked.list_schemas = some sqlserver_schemas_query
statement_for sqlserver Asked.list_tables = some sqlserver_tables_query
statement_for sqlserver Asked.list_columns = some sqlserver_columns_query
statement_for sqlserver Asked.list_indexes = some sqlserver_indexes_query
statement_for sqlserver Asked.list_keys = some sqlserver_foreign_keys_query
statement_for sqlserver Asked.list_routines = some sqlserver_routines_query
statement_for sqlserver Asked.definition = some sqlserver_definition_query
statement_for sqlserver Asked.version = some (codes "SELECT @@VERSION")
statement_for postgresql Asked.list_databases = some postgres_databases_query
statement_for postgresql Asked.current = some postgres_current_query
statement_for postgresql Asked.list_schemas = some postgres_schemas_query
statement_for postgresql Asked.list_tables = some postgres_tables_query
statement_for postgresql Asked.list_columns = some postgres_columns_query
statement_for postgresql Asked.list_indexes = some postgres_indexes_query
statement_for postgresql Asked.list_keys = some postgres_foreign_keys_query
statement_for postgresql Asked.list_routines = some postgres_routines_query
statement_for postgresql Asked.definition = some postgres_definition_query
statement_for postgresql Asked.version = some (codes "SELECT version()")
statement_for mysql Asked.list_databases = some mysql_databases_query
statement_for mysql Asked.current = some mysql_current_query
statement_for mysql Asked.list_schemas = none
statement_for mysql Asked.list_tables = some mysql_tables_query
statement_for mysql Asked.list_columns = some mysql_columns_query
statement_for mysql Asked.list_indexes = some mysql_indexes_query
statement_for mysql Asked.list_keys = some mysql_foreign_keys_query
statement_for mysql Asked.list_routines = some mysql_routines_query
statement_for mysql Asked.definition = some mysql_definition_query
statement_for mysql Asked.version = some (codes "SELECT VERSION()")
statement_for sqlite Asked.list_databases = some sqlite_databases_query
statement_for sqlite Asked.current = none
statement_for sqlite Asked.list_schemas = none
statement_for sqlite Asked.list_tables = some sqlite_tables_query
statement_for sqlite Asked.list_columns = some sqlite_columns_query
statement_for sqlite Asked.list_indexes = some sqlite_indexes_query
statement_for sqlite Asked.list_keys = some sqlite_foreign_keys_query
statement_for sqlite Asked.list_routines = none
statement_for sqlite Asked.definition = none
statement_for sqlite Asked.version = some (codes "SELECT sqlite_version()")
statement_for (Engine.other name) asked = none

module _ {V World : Type 0} where
  -- Two servers that answer the statements of the explorer alike, and any others as they like.
  abbrev pub Agree : Driver V World → Driver V World → Type 0
  Agree d e =
      (engine : Engine) (asked : Asked) (q : Text)
      → statement_for engine asked ≡ some q
      → (w : World) (db : ℕ) (args : List Text)
      → (d.query w db q args ≡ e.query w db q args)
        × (d.query_row w db q args ≡ e.query_row w db q args)
