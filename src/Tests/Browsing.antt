-- ===== src/Tests/Browsing.antt =====
-- The theorems on the catalog queries, at a SQLite file with two tables.
use db_crawler.Catalog.Driver.{Reading, Driver, Fetched}
use db_crawler.Catalog.Explore.{explorer}
use db_crawler.Catalog.Fixed.Allowed.{ReadAlike, explorer_reads}
use db_crawler.Catalog.Fixed.Explored.{explorer-Agree}
use db_crawler.Catalog.Fixed.{Asked, statement_for, Agree}
use db_crawler.Catalog.Routines.{objects}
use db_crawler.Catalog.Sql.SqlServer.{
  sqlserver_columns_query, sqlserver_current_query, sqlserver_databases_query,
  sqlserver_definition_query, sqlserver_foreign_keys_query, sqlserver_indexes_query,
  sqlserver_routines_query, sqlserver_schemas_query, sqlserver_tables_query,
}
use db_crawler.Catalog.Sql.Postgres.{
  postgres_columns_query, postgres_current_query, postgres_databases_query,
  postgres_definition_query, postgres_foreign_keys_query, postgres_indexes_query,
  postgres_routines_query, postgres_schemas_query, postgres_tables_query,
}
use db_crawler.Catalog.Sql.MySql.{
  mysql_columns_query, mysql_current_query, mysql_databases_query, mysql_definition_query,
  mysql_foreign_keys_query, mysql_indexes_query, mysql_routines_query, mysql_tables_query,
}
use db_crawler.Catalog.Sql.Sqlite.{
  sqlite_columns_query, sqlite_databases_query, sqlite_foreign_keys_query, sqlite_indexes_query,
  sqlite_tables_query,
}
use db_crawler.Classify.{is_read_only}
use db_crawler.Engine.{Engine, sqlserver, postgresql, mysql, sqlite}
use db_crawler.Introspect.{TableInfo, ColumnInfo}
use db_crawler.Prelude.Int.{pos}
use db_crawler.Prelude.{
  ℕ, ◌≡◌, refl, subst, Bool, true, false, List, [], ◌∷◌, Option, none, some, ◌⊎◌, inl, inr, ◌==◌,
  if◌then◌else◌, map,
}
use db_crawler.Protocol.{Cause, other_error}
use db_crawler.Session.{Session}
use db_crawler.Tests.Base.{plain, config}
use db_crawler.Text.{Text, codes, text_eq}

-- A value of the driver.
pub data Field : Type 0 where
  null : Field
  word : Text → Field
  number : ℕ → Field

instance abbrev pub fields : Reading Field
fields = record {
  is_null = λ v. elim v [ null ↦ true | word t ↦ false | number n ↦ false ];
  as_text = λ v. elim v [ null ↦ none | word t ↦ some t | number n ↦ none ];
  as_int = λ v. elim v [ null ↦ none | word t ↦ none | number n ↦ some (pos n) ];
  as_bool = λ v. none;
}

abbrev column_fetches : List (List Field ⊎ Cause)
column_fetches =
    inl (number 0 ∷ word (codes "id") ∷ word (codes "integer") ∷ number 1 ∷ null ∷ number 1 ∷ [])
    ∷ inl (number 1 ∷ word (codes "name") ∷ word (codes "TEXT") ∷ number 0 ∷ null ∷ number 0 ∷ [])
    ∷ []

abbrev table_fetches : List (List Field ⊎ Cause)
table_fetches =
    inl (word (codes "orders") ∷ word (codes "table") ∷ [])
    ∷ inl (word (codes "items") ∷ word (codes "table") ∷ [])
    ∷ []

abbrev fetched : List (List Field ⊎ Cause) → Fetched Field ⊎ Cause
fetched rows = inl (record { fetches = rows; end_error = none })

-- The file answers for its tables and their columns and has no indexes; all else fails.
unfoldable pub file_query : ℕ → ℕ → Text → List Text → Fetched Field ⊎ Cause
unfolding text_eq
file_query w db q args =
    if text_eq q sqlite_columns_query
    then fetched column_fetches
    else if text_eq q sqlite_tables_query
    then fetched table_fetches
    else inr other_error

abbrev pub file : Driver Field ℕ
file = record { query = file_query; query_row = λ w db q args. inr other_error }

abbrev pub session : Session
session = record {
  id = codes "conn-1";
  engine = sqlite;
  config = config;
  db = 0;
  opened_at = 5;
  running = [];
}

-- The names of the listing.
abbrev names : List TableInfo ⊎ Cause → List Text
names (inr cause) = []
names (inl ts) = map (λ (t : TableInfo). t.name) ts

file_listing : names (objects file 0 session []) ≡ codes "items" ∷ codes "orders" ∷ []
unfolding objects file_query sqlite_columns_query sqlite_tables_query
file_listing = refl

abbrev the_columns : List ColumnInfo
the_columns =
    record {
      name = codes "id";
      data_type = codes "integer";
      nullable = false;
      default_value = none;
      is_primary_key = true;
      is_auto_incr = true;
      position = pos 1;
      comment = [];
    }
    ∷ record {
      name = codes "name";
      data_type = codes "TEXT";
      nullable = true;
      default_value = none;
      is_primary_key = false;
      is_auto_incr = false;
      position = pos 2;
      comment = [];
    }
    ∷ []

-- Whether a text begins like a DROP or a DELETE; no statement of the explorer does.
abbrev begins_with_d : Text → Bool
begins_with_d [] = false
begins_with_d (c ∷ s) = c == b'D'

-- A server that answers such statements with a failure of its own.
unfoldable other_query : ℕ → ℕ → Text → List Text → Fetched Field ⊎ Cause
other_query w db q args =
    if begins_with_d q then inr Cause.canceled_error else file_query w db q args

abbrev other_file : Driver Field ℕ
other_file = record { query = other_query; query_row = λ w db q args. inr other_error }

abbrev Harmless : Option Text → Type 0
Harmless none = Unit
Harmless (some q) = begins_with_d q ≡ false

explorer-Harmless : (g : Engine) (asked : Asked) → Harmless (statement_for g asked)
unfolding statement_for mysql_columns_query mysql_current_query mysql_databases_query
    mysql_definition_query mysql_foreign_keys_query mysql_indexes_query mysql_routines_query
    mysql_tables_query postgres_columns_query postgres_current_query postgres_databases_query
    postgres_definition_query postgres_foreign_keys_query postgres_indexes_query
    postgres_routines_query postgres_schemas_query postgres_tables_query sqlite_columns_query
    sqlite_databases_query sqlite_foreign_keys_query sqlite_indexes_query sqlite_tables_query
    sqlserver_columns_query sqlserver_current_query sqlserver_databases_query
    sqlserver_definition_query sqlserver_foreign_keys_query sqlserver_indexes_query
    sqlserver_routines_query sqlserver_schemas_query sqlserver_tables_query
explorer-Harmless sqlserver Asked.list_databases = refl
explorer-Harmless sqlserver _ = refl
explorer-Harmless postgresql Asked.list_databases = refl
explorer-Harmless postgresql _ = refl
explorer-Harmless mysql Asked.list_schemas = tt
explorer-Harmless mysql _ = refl
explorer-Harmless sqlite Asked.current = tt
explorer-Harmless sqlite Asked.list_schemas = tt
explorer-Harmless sqlite Asked.list_routines = tt
explorer-Harmless sqlite Asked.definition = tt
explorer-Harmless sqlite _ = refl
explorer-Harmless (Engine.other name) asked = tt

-- The two servers differ only on statements that the explorer never sends.
file-Agree : Agree file other_file
unfolding other_query
file-Agree g asked q h w db args = (rw (subst Harmless h (explorer-Harmless g asked)) refl, refl)

explorer-Agree_example : explorer file ≡ explorer other_file
explorer-Agree_example = explorer-Agree file other_file file-Agree

-- A server that answers what IsReadOnly rejects with a failure of its own.
abbrev guarded_file : Driver Field ℕ
guarded_file = record {
  query =
      λ w db q args. if is_read_only q then file_query w db q args else inr Cause.canceled_error;
  query_row = file.query_row;
}

guarded_file-ReadAlike : ReadAlike file guarded_file
guarded_file-ReadAlike q h w db args = (rw h refl, refl)

explorer_reads_example : explorer file ≡ explorer guarded_file
explorer_reads_example = explorer_reads file guarded_file guarded_file-ReadAlike
