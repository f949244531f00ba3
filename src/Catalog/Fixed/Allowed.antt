-- ===== src/Catalog/Fixed/Allowed.antt =====
-- core/dbcore/introspect.go, routines.go and protocol.go: the statements that the explorer sends,
-- against the allowlist for read-only connections, which the source does not ask about them.
use mathlib.Core.Option.{some-injective}
use db_crawler.Catalog.Driver.{Reading, Driver}
use db_crawler.Catalog.Explore.{explorer}
use db_crawler.Catalog.Fixed.Explored.{explorer-Agree}
use db_crawler.Catalog.Fixed.{Asked, statement_for}
use db_crawler.Catalog.Sql.MySql.{
  mysql_databases_query, mysql_current_query, mysql_tables_query, mysql_columns_query,
  mysql_indexes_query, mysql_foreign_keys_query, mysql_routines_query, mysql_definition_query,
}
use db_crawler.Catalog.Sql.Postgres.{
  postgres_databases_query, postgres_current_query, postgres_schemas_query, postgres_tables_query,
  postgres_columns_query, postgres_indexes_query, postgres_foreign_keys_query,
  postgres_routines_query, postgres_definition_query,
}
use db_crawler.Catalog.Sql.SqlServer.{
  sqlserver_databases_query, sqlserver_current_query, sqlserver_schemas_query,
  sqlserver_tables_query, sqlserver_columns_query, sqlserver_indexes_query,
  sqlserver_foreign_keys_query, sqlserver_routines_query, sqlserver_definition_query,
}
use db_crawler.Catalog.Sql.Sqlite.{
  sqlite_databases_query, sqlite_tables_query, sqlite_columns_query, sqlite_indexes_query,
  sqlite_foreign_keys_query,
}
use db_crawler.Classify.Leading.{first_keyword}
use db_crawler.Classify.{is_read_only, classify}
use db_crawler.Engine.{Engine, sqlserver, postgresql, mysql, sqlite}
use db_crawler.Prelude.{ℕ, ◌≡◌, refl, ap, sym, ◌∙◌, true, List, Option, some}
use db_crawler.Text.{Text, Unicode, codes, one_of, to_upper}

module _ ⦃u : Unicode⦄ where
  -- A statement that starts with SELECT.
  Selects : Option Text → Type 0
  Selects o = (q : Text) → o ≡ some q → is_read_only q ≡ true

  selects : (p : Text) → first_keyword p ≡ codes "SELECT" → Selects (some p)
  unfolding is_read_only classify one_of Selects
  selects p h q e =
      ap is_read_only (sym (some-injective _ _ e)) ∙ rw (h, is_read_only, classify) refl

  fixed_reads : (engine : Engine) (asked : Asked) → Selects (statement_for engine asked)
  unfolding statement_for first_keyword to_upper mysql_databases_query mysql_current_query
      mysql_tables_query mysql_columns_query mysql_indexes_query mysql_foreign_keys_query
      mysql_routines_query mysql_definition_query postgres_databases_query postgres_current_query
      postgres_schemas_query postgres_tables_query postgres_columns_query postgres_indexes_query
      postgres_foreign_keys_query postgres_routines_query postgres_definition_query
      sqlserver_databases_query sqlserver_current_query sqlserver_schemas_query
      sqlserver_tables_query sqlserver_columns_query sqlserver_indexes_query
      sqlserver_foreign_keys_query sqlserver_routines_query sqlserver_definition_query
      sqlite_databases_query sqlite_tables_query sqlite_columns_query sqlite_indexes_query
      sqlite_foreign_keys_query Selects
  fixed_reads sqlserver Asked.list_databases = selects _ refl
  fixed_reads sqlserver Asked.current = selects _ refl
  fixed_reads sqlserver Asked.list_schemas = selects _ refl
  fixed_reads sqlserver Asked.list_tables = selects _ refl
  fixed_reads sqlserver Asked.list_columns = selects _ refl
  fixed_reads sqlserver Asked.list_indexes = selects _ refl
  fixed_reads sqlserver Asked.list_keys = selects _ refl
  fixed_reads sqlserver Asked.list_routines = selects _ refl
  fixed_reads sqlserver Asked.definition = selects _ refl
  fixed_reads sqlserver Asked.version = selects _ refl
  fixed_reads postgresql Asked.list_databases = selects _ refl
  fixed_reads postgresql Asked.current = selects _ refl
  fixed_reads postgresql Asked.list_schemas = selects _ refl
  fixed_reads postgresql Asked.list_tables = selects _ refl
  fixed_reads postgresql Asked.list_columns = selects _ refl
  fixed_reads postgresql Asked.list_indexes = selects _ refl
  fixed_reads postgresql Asked.list_keys = selects _ refl
  fixed_reads postgresql Asked.list_routines = selects _ refl
  fixed_reads postgresql Asked.definition = selects _ refl
  fixed_reads postgresql Asked.version = selects _ refl
  fixed_reads mysql Asked.list_databases = selects _ refl
  fixed_reads mysql Asked.current = selects _ refl
  fixed_reads mysql Asked.list_schemas = λ q e. absurd (cc e)
  fixed_reads mysql Asked.list_tables = selects _ refl
  fixed_reads mysql Asked.list_columns = selects _ refl
  fixed_reads mysql Asked.list_indexes = selects _ refl
  fixed_reads mysql Asked.list_keys = selects _ refl
  fixed_reads mysql Asked.list_routines = selects _ refl
  fixed_reads mysql Asked.definition = selects _ refl
  fixed_reads mysql Asked.version = selects _ refl
  fixed_reads sqlite Asked.list_databases = selects _ refl
  fixed_reads sqlite Asked.current = λ q e. absurd (cc e)
  fixed_reads sqlite Asked.list_schemas = λ q e. absurd (cc e)
  fixed_reads sqlite Asked.list_tables = selects _ refl
  fixed_reads sqlite Asked.list_columns = selects _ refl
  fixed_reads sqlite Asked.list_indexes = selects _ refl
  fixed_reads sqlite Asked.list_keys = selects _ refl
  fixed_reads sqlite Asked.list_routines = λ q e. absurd (cc e)
  fixed_reads sqlite Asked.definition = λ q e. absurd (cc e)
  fixed_reads sqlite Asked.version = selects _ refl
  fixed_reads (Engine.other name) asked = λ q e. absurd (cc e)

module _ {V World : Type 0} ⦃r : Reading V⦄ ⦃u : Unicode⦄ (d e : Driver V World) where
  -- The two servers answer alike what IsReadOnly accepts, with any arguments.
  abbrev pub ReadAlike : Type 0
  ReadAlike =
      (q : Text)
      → is_read_only q ≡ true
      → (w : World) (db : ℕ) (args : List Text)
      → (d.query w db q args ≡ e.query w db q args)
        × (d.query_row w db q args ≡ e.query_row w db q args)

  -- Two servers that answer every statement that IsReadOnly accepts alike, with any arguments,
  -- give the same explorer: though the source does not ask the guard about the statements of
  -- its catalog operations, what these yield, on every engine and for all names of schemas,
  -- tables and routines, depends on no statement that IsReadOnly rejects.
  pub explorer_reads : ReadAlike → explorer d ≡ explorer e
  unfolding Selects
  explorer_reads same =
      explorer-Agree d e (λ engine asked q h. same q (fixed_reads engine asked q h))
