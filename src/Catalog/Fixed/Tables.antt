-- ===== src/Catalog/Fixed/Tables.antt =====
-- core/dbcore/introspect.go and routines.go: tables, routines and what a table consists of.
use db_crawler.Catalog.Fixed.{Asked, statement_for, Agree}
use db_crawler.Catalog.Browse.{tables_of, columns_of, indexes_of, foreign_keys_of}
use db_crawler.Catalog.Driver.{Reading, Driver, scanned, map_ok, grouped}
use db_crawler.Catalog.MySql.{mysql_table, mysql_column, mysql_index_row, mysql_fk_row}
use db_crawler.Catalog.Order.{sort_tables}
use db_crawler.Catalog.Postgres.{
  postgres_table, postgres_column, postgres_index_row, postgres_fk_row,
}
use db_crawler.Catalog.Routines.{routine_row, query_routines, routines_of}
use db_crawler.Catalog.SqlServer.{
  sqlserver_table, sqlserver_column, sqlserver_index_row, sqlserver_fk_row,
}
use db_crawler.Catalog.Sqlite.{
  sqlite_table, sqlite_column, sqlite_index_row, sqlite_fk_row, mark_rowids,
}
use db_crawler.Engine.{Engine, sqlserver, postgresql, mysql, sqlite}
use db_crawler.Introspect.{IndexRow, FkRow, group_index_rows, group_foreign_key_rows}
use db_crawler.Prelude.{ℕ, ◌≡◌, refl, ap, List, [], ◌∷◌, some}
use db_crawler.Text.{Text, Unicode}

module _ {V World : Type 0} ⦃r : Reading V⦄ ⦃u : Unicode⦄ (d e : Driver V World)
    (same : Agree d e) where
  pub tables-Agree :
      (g : Engine) (w : World) (db : ℕ) (schema : Text)
      → tables_of d g w db schema ≡ tables_of e g w db schema
  unfolding tables_of statement_for
  tables-Agree sqlserver w db schema =
      ap (scanned sqlserver_table) (same sqlserver Asked.list_tables _ refl w db (schema ∷ [])).0
  tables-Agree postgresql w db schema =
      ap (scanned postgres_table) (same postgresql Asked.list_tables _ refl w db (schema ∷ [])).0
  tables-Agree mysql w db schema =
      ap (scanned mysql_table) (same mysql Asked.list_tables _ refl w db (schema ∷ [])).0
  tables-Agree sqlite w db schema =
      ap (λ x. map_ok sort_tables (scanned sqlite_table x))
        (same sqlite Asked.list_tables _ refl w db []).0
  tables-Agree (Engine.other name) w db schema = refl

  pub columns-Agree :
      (g : Engine) (w : World) (db : ℕ) (schema name : Text)
      → columns_of d g w db schema name ≡ columns_of e g w db schema name
  unfolding columns_of statement_for
  columns-Agree sqlserver w db schema name =
      ap (scanned sqlserver_column)
        (same sqlserver Asked.list_columns _ refl w db (name ∷ schema ∷ [])).0
  columns-Agree postgresql w db schema name =
      ap (scanned postgres_column)
        (same postgresql Asked.list_columns _ refl w db (name ∷ schema ∷ [])).0
  columns-Agree mysql w db schema name =
      ap (scanned mysql_column) (same mysql Asked.list_columns _ refl w db (name ∷ schema ∷ [])).0
  columns-Agree sqlite w db schema name =
      ap (λ x. map_ok mark_rowids (scanned sqlite_column x))
        (same sqlite Asked.list_columns _ refl w db (name ∷ [])).0
  columns-Agree (Engine.other g) w db schema name = refl

  pub indexes-Agree :
      (g : Engine) (w : World) (db : ℕ) (schema name : Text)
      → indexes_of d g w db schema name ≡ indexes_of e g w db schema name
  unfolding indexes_of statement_for
  indexes-Agree sqlserver w db schema name =
      ap
        (λ x.
          map_ok (λ (rows : List IndexRow). grouped (group_index_rows rows))
            (scanned sqlserver_index_row x))
        (same sqlserver Asked.list_indexes _ refl w db (name ∷ schema ∷ [])).0
  indexes-Agree postgresql w db schema name =
      ap
        (λ x.
          map_ok (λ (rows : List IndexRow). grouped (group_index_rows rows))
            (scanned postgres_index_row x))
        (same postgresql Asked.list_indexes _ refl w db (name ∷ schema ∷ [])).0
  indexes-Agree mysql w db schema name =
      ap
        (λ x.
          map_ok (λ (rows : List IndexRow). grouped (group_index_rows rows))
            (scanned mysql_index_row x))
        (same mysql Asked.list_indexes _ refl w db (name ∷ schema ∷ [])).0
  indexes-Agree sqlite w db schema name =
      ap
        (λ x.
          map_ok (λ (rows : List IndexRow). grouped (group_index_rows rows))
            (scanned sqlite_index_row x))
        (same sqlite Asked.list_indexes _ refl w db (name ∷ [])).0
  indexes-Agree (Engine.other g) w db schema name = refl

  pub foreign_keys-Agree :
      (g : Engine) (w : World) (db : ℕ) (schema name : Text)
      → foreign_keys_of d g w db schema name ≡ foreign_keys_of e g w db schema name
  unfolding foreign_keys_of statement_for
  foreign_keys-Agree sqlserver w db schema name =
      ap
        (λ x.
          map_ok (λ (rows : List FkRow). grouped (group_foreign_key_rows rows))
            (scanned sqlserver_fk_row x))
        (same sqlserver Asked.list_keys _ refl w db (name ∷ schema ∷ [])).0
  foreign_keys-Agree postgresql w db schema name =
      ap
        (λ x.
          map_ok (λ (rows : List FkRow). grouped (group_foreign_key_rows rows))
            (scanned postgres_fk_row x))
        (same postgresql Asked.list_keys _ refl w db (name ∷ schema ∷ [])).0
  foreign_keys-Agree mysql w db schema name =
      ap
        (λ x.
          map_ok (λ (rows : List FkRow). grouped (group_foreign_key_rows rows))
            (scanned (mysql_fk_row schema) x))
        (same mysql Asked.list_keys _ refl w db (name ∷ schema ∷ [])).0
  foreign_keys-Agree sqlite w db schema name =
      ap
        (λ x.
          map_ok (λ (rows : List FkRow). grouped (group_foreign_key_rows rows))
            (scanned (sqlite_fk_row name) x))
        (same sqlite Asked.list_keys _ refl w db (name ∷ [])).0
  foreign_keys-Agree (Engine.other g) w db schema name = refl

  routine-Agree :
      (engine : Engine) (q : Text)
      → statement_for engine Asked.list_routines ≡ some q
      → (w : World) (db : ℕ) (schema : Text)
      → query_routines d w db q schema ≡ query_routines e w db q schema
  unfolding query_routines
  routine-Agree engine q h w db schema =
      ap (scanned routine_row) (same engine Asked.list_routines q h w db (schema ∷ [])).0

  pub routines-Agree :
      (g : Engine) (w : World) (db : ℕ) (schema : Text)
      → routines_of d g w db schema ≡ routines_of e g w db schema
  unfolding routines_of statement_for
  routines-Agree sqlserver w db schema = routine-Agree sqlserver _ refl w db schema
  routines-Agree postgresql w db schema = routine-Agree postgresql _ refl w db schema
  routines-Agree mysql w db schema = routine-Agree mysql _ refl w db schema
  routines-Agree sqlite w db schema = refl
  routines-Agree (Engine.other name) w db schema = refl
