-- ===== src/Catalog/Routines.antt =====
-- core/dbcore/routines.go: stored routines, and the listing that holds them.
use db_crawler.Catalog.Results.{one_value, readable, listing}
use db_crawler.Catalog.Browse.{tables}
use db_crawler.Catalog.Driver.{Reading, Driver, Scan, ◌>>=◌, pure, text, null_text, scanned}
use db_crawler.Catalog.Sql.MySql.{mysql_routines_query, mysql_definition_query}
use db_crawler.Catalog.Sql.Postgres.{postgres_routines_query, postgres_definition_query}
use db_crawler.Catalog.Sql.SqlServer.{sqlserver_routines_query, sqlserver_definition_query}
use db_crawler.Engine.{Engine, sqlserver, postgresql, mysql, sqlite}
use db_crawler.Introspect.{TableInfo}
use db_crawler.Prelude.{ℕ, List, [], ◌∷◌, ◌++◌, none, ◌⊎◌, inl, inr, if◌then◌else◌}
use db_crawler.Protocol.{Cause, other_error}
use db_crawler.Session.{Session}
use db_crawler.Text.{Text, Unicode, is_nil}

module _ {V : Type 0} ⦃r : Reading V⦄ where
  unfoldable pub routine_row : Scan V TableInfo
  routine_row = do
    schema ← text
    name ← text
    kind ← text
    pure (record { schema = schema; name = name; kind = kind; row_estimate = none; comment = [] })

module _ {V World : Type 0} ⦃r : Reading V⦄ ⦃u : Unicode⦄ (d : Driver V World) where
  unfoldable pub query_string : World → Session → Text → List Text → Text ⊎ Cause
  unfolding readable
  query_string w s query args = readable (one_value null_text (d.query_row w s.db query args))

  unfoldable pub query_routines : World → ℕ → Text → Text → List TableInfo ⊎ Cause
  unfolding scanned routine_row
  query_routines w db query schema = scanned routine_row (d.query w db query (schema ∷ []))

  unfoldable pub routines_of : Engine → World → ℕ → Text → List TableInfo ⊎ Cause
  unfolding query_routines
  routines_of sqlserver w db schema = query_routines w db sqlserver_routines_query schema
  routines_of postgresql w db schema = query_routines w db postgres_routines_query schema
  routines_of mysql w db schema = query_routines w db mysql_routines_query schema
  routines_of sqlite w db schema = inl []
  routines_of (Engine.other e) w db schema = inr other_error

  unfoldable pub routines : World → Session → Text → List TableInfo ⊎ Cause
  unfolding routines_of
  routines w s schema = routines_of s.engine w s.db schema

  unfoldable pub objects : World → Session → Text → List TableInfo ⊎ Cause
  unfolding tables routines listing
  objects w s schema = listing (tables d w s schema) (routines w s schema)

  unfoldable pub definition_of : Engine → World → Session → Text → Text → Text ⊎ Cause
  unfolding query_string
  definition_of sqlserver w s schema name =
      query_string w s sqlserver_definition_query
        ((if is_nil schema then name else schema ++ (b'.' ∷ name)) ∷ [])
  definition_of postgresql w s schema name =
      query_string w s postgres_definition_query (name ∷ schema ∷ [])
  definition_of mysql w s schema name = query_string w s mysql_definition_query (name ∷ schema ∷ [])
  definition_of sqlite w s schema name = inr other_error
  definition_of (Engine.other e) w s schema name = inr other_error

  -- The kind is not used.
  unfoldable pub routine_definition : World → Session → Text → Text → Text → Text ⊎ Cause
  unfolding definition_of
  routine_definition w s schema name kind = definition_of s.engine w s schema name
