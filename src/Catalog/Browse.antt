-- ===== src/Catalog/Browse.antt =====
-- core/dbcore/introspect.go: the explorer's operations of a session, by engine.
use db_crawler.Catalog.Results.{valid, first, detail_of}
use db_crawler.Catalog.Driver.{Reading, Driver, null_text, scanned, map_ok}
use db_crawler.Catalog.MySql.{mysql_tables, mysql_columns, mysql_indexes, mysql_foreign_keys}
use db_crawler.Catalog.Postgres.{
  postgres_tables, postgres_columns, postgres_indexes, postgres_foreign_keys,
}
use db_crawler.Catalog.Sql.MySql.{mysql_databases_query, mysql_current_query}
use db_crawler.Catalog.Sql.Postgres.{
  postgres_databases_query, postgres_current_query, postgres_schemas_query,
}
use db_crawler.Catalog.Sql.SqlServer.{
  sqlserver_databases_query, sqlserver_current_query, sqlserver_schemas_query,
}
use db_crawler.Catalog.Sql.Sqlite.{sqlite_databases_query}
use db_crawler.Catalog.SqlServer.{
  sqlserver_tables, sqlserver_columns, sqlserver_indexes, sqlserver_foreign_keys,
}
use db_crawler.Catalog.Sqlite.{sqlite_tables, sqlite_columns, sqlite_indexes, sqlite_foreign_keys}
use db_crawler.Dsn.{is_blank}
use db_crawler.Engine.{Engine, sqlserver, postgresql, mysql, sqlite}
use db_crawler.Introspect.{TableInfo, ColumnInfo, IndexInfo, ForeignKeyInfo, TableDetail}
use db_crawler.Prelude.{ℕ, List, [], ◌⊎◌, inl, inr, if◌then◌else◌}
use db_crawler.Protocol.{Cause, other_error}
use db_crawler.Session.{Session}
use db_crawler.Text.{Text, Unicode, codes}

module _ {V World : Type 0} ⦃r : Reading V⦄ ⦃u : Unicode⦄ (d : Driver V World) where
  unfoldable pub query_strings : World → Session → Text → List Text ⊎ Cause
  unfolding scanned valid
  query_strings w s query = map_ok valid (scanned null_text (d.query w s.db query []))

  unfoldable pub databases_of : Engine → World → Session → List Text ⊎ Cause
  unfolding query_strings
  databases_of sqlserver w s = query_strings w s sqlserver_databases_query
  databases_of postgresql w s = query_strings w s postgres_databases_query
  databases_of mysql w s = query_strings w s mysql_databases_query
  databases_of sqlite w s = query_strings w s sqlite_databases_query
  databases_of (Engine.other name) w s = inr other_error

  unfoldable pub databases : World → Session → List Text ⊎ Cause
  unfolding databases_of
  databases w s = databases_of s.engine w s

  unfoldable pub current_of : Engine → World → Session → Text ⊎ Cause
  unfolding query_strings is_blank
  current_of sqlserver w s = map_ok first (query_strings w s sqlserver_current_query)
  current_of postgresql w s = map_ok first (query_strings w s postgres_current_query)
  current_of mysql w s = map_ok first (query_strings w s mysql_current_query)
  current_of sqlite w s =
      inl (if is_blank s.config.database then codes "main" else s.config.database)
  current_of (Engine.other name) w s = inr other_error

  unfoldable pub current_database : World → Session → Text ⊎ Cause
  unfolding current_of
  current_database w s = current_of s.engine w s

  unfoldable pub schemas_of : Engine → World → Session → List Text ⊎ Cause
  unfolding query_strings
  schemas_of sqlserver w s = query_strings w s sqlserver_schemas_query
  schemas_of postgresql w s = query_strings w s postgres_schemas_query
  schemas_of mysql w s = inl []
  schemas_of sqlite w s = inl []
  schemas_of (Engine.other name) w s = inl []

  unfoldable pub schemas : World → Session → List Text ⊎ Cause
  unfolding schemas_of
  schemas w s = schemas_of s.engine w s

  unfoldable pub tables_of : Engine → World → ℕ → Text → List TableInfo ⊎ Cause
  unfolding sqlserver_tables postgres_tables mysql_tables sqlite_tables
  tables_of sqlserver w db schema = sqlserver_tables d w db schema
  tables_of postgresql w db schema = postgres_tables d w db schema
  tables_of mysql w db schema = mysql_tables d w db schema
  tables_of sqlite w db schema = sqlite_tables d w db
  tables_of (Engine.other e) w db schema = inr other_error

  unfoldable pub tables : World → Session → Text → List TableInfo ⊎ Cause
  unfolding tables_of
  tables w s schema = tables_of s.engine w s.db schema

  unfoldable pub columns_of : Engine → World → ℕ → Text → Text → List ColumnInfo ⊎ Cause
  unfolding sqlserver_columns postgres_columns mysql_columns sqlite_columns
  columns_of sqlserver w db schema name = sqlserver_columns d w db schema name
  columns_of postgresql w db schema name = postgres_columns d w db schema name
  columns_of mysql w db schema name = mysql_columns d w db schema name
  columns_of sqlite w db schema name = sqlite_columns d w db name
  columns_of (Engine.other e) w db schema name = inr other_error

  unfoldable pub columns : World → Session → Text → Text → List ColumnInfo ⊎ Cause
  unfolding columns_of
  columns w s schema name = columns_of s.engine w s.db schema name

  unfoldable pub indexes_of : Engine → World → ℕ → Text → Text → List IndexInfo ⊎ Cause
  unfolding sqlserver_indexes postgres_indexes mysql_indexes sqlite_indexes
  indexes_of sqlserver w db schema name = sqlserver_indexes d w db schema name
  indexes_of postgresql w db schema name = postgres_indexes d w db schema name
  indexes_of mysql w db schema name = mysql_indexes d w db schema name
  indexes_of sqlite w db schema name = sqlite_indexes d w db name
  indexes_of (Engine.other e) w db schema name = inl []

  unfoldable pub indexes : World → Session → Text → Text → List IndexInfo ⊎ Cause
  unfolding indexes_of
  indexes w s schema name = indexes_of s.engine w s.db schema name

  unfoldable pub foreign_keys_of : Engine → World → ℕ → Text → Text → List ForeignKeyInfo ⊎ Cause
  unfolding sqlserver_foreign_keys postgres_foreign_keys mysql_foreign_keys sqlite_foreign_keys
  foreign_keys_of sqlserver w db schema name = sqlserver_foreign_keys d w db schema name
  foreign_keys_of postgresql w db schema name = postgres_foreign_keys d w db schema name
  foreign_keys_of mysql w db schema name = mysql_foreign_keys d w db schema name
  foreign_keys_of sqlite w db schema name = sqlite_foreign_keys d w db name
  foreign_keys_of (Engine.other e) w db schema name = inl []

  unfoldable pub foreign_keys : World → Session → Text → Text → List ForeignKeyInfo ⊎ Cause
  unfolding foreign_keys_of
  foreign_keys w s schema name = foreign_keys_of s.engine w s.db schema name

  unfoldable pub table : World → Session → Text → Text → TableDetail ⊎ Cause
  unfolding columns indexes foreign_keys detail_of
  table w s schema name =
      detail_of s.engine schema name (columns w s schema name) (indexes w s schema name)
        (foreign_keys w s schema name)
