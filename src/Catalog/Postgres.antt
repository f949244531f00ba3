-- ===== src/Catalog/Postgres.antt =====
-- core/dbcore/introspect_postgres.go
use db_crawler.Catalog.Driver.{
  Reading, Driver, Scan, ◌>>=◌, pure, text, integer, boolean, null_text, null_integer, scanned,
  map_ok, grouped,
}
use db_crawler.Catalog.Sql.Postgres.{
  postgres_tables_query, postgres_columns_query, postgres_indexes_query,
  postgres_foreign_keys_query,
}
use db_crawler.Introspect.{
  TableInfo, ColumnInfo, IndexInfo, ForeignKeyInfo, IndexRow, FkRow, group_index_rows,
  group_foreign_key_rows,
}
use db_crawler.Prelude.{ℕ, List, [], ◌∷◌, ◌⊎◌}
use db_crawler.Protocol.{Cause}
use db_crawler.Text.{Text}

module _ {V : Type 0} ⦃r : Reading V⦄ where
  unfoldable pub postgres_table : Scan V TableInfo
  postgres_table = do
    schema ← text
    name ← text
    kind ← text
    estimate ← null_integer
    comment ← text
    pure (record {
      schema = schema;
      name = name;
      kind = kind;
      row_estimate = estimate;
      comment = comment;
    })

  unfoldable pub postgres_column : Scan V ColumnInfo
  postgres_column = do
    name ← text
    data_type ← text
    null_flag ← boolean
    default_value ← null_text
    position ← integer
    comment ← text
    primary ← boolean
    auto ← boolean
    pure (record {
      name = name;
      data_type = data_type;
      nullable = null_flag;
      default_value = default_value;
      is_primary_key = primary;
      is_auto_incr = auto;
      position = position;
      comment = comment;
    })

  unfoldable pub postgres_index_row : Scan V IndexRow
  postgres_index_row = do
    name ← text
    unique ← boolean
    primary ← boolean
    column ← text
    pure (record { name = name; column = column; unique = unique; primary = primary })

  unfoldable pub postgres_fk_row : Scan V FkRow
  postgres_fk_row = do
    name ← text
    column ← text
    ref_schema ← text
    ref_table ← text
    ref_column ← text
    on_delete ← text
    on_update ← text
    pure (record {
      name = name;
      column = column;
      ref_schema = ref_schema;
      ref_table = ref_table;
      ref_column = ref_column;
      on_delete = on_delete;
      on_update = on_update;
    })

module _ {V World : Type 0} ⦃r : Reading V⦄ (d : Driver V World) where
  unfoldable pub postgres_tables : World → ℕ → Text → List TableInfo ⊎ Cause
  unfolding scanned postgres_table
  postgres_tables w db schema =
      scanned postgres_table (d.query w db postgres_tables_query (schema ∷ []))

  unfoldable pub postgres_columns : World → ℕ → Text → Text → List ColumnInfo ⊎ Cause
  unfolding scanned postgres_column
  postgres_columns w db schema table =
      scanned postgres_column (d.query w db postgres_columns_query (table ∷ schema ∷ []))

  unfoldable pub postgres_indexes : World → ℕ → Text → Text → List IndexInfo ⊎ Cause
  unfolding scanned postgres_index_row group_index_rows
  postgres_indexes w db schema table =
      map_ok (λ (rows : List IndexRow). grouped (group_index_rows rows))
        (scanned postgres_index_row (d.query w db postgres_indexes_query (table ∷ schema ∷ [])))

  unfoldable pub postgres_foreign_keys : World → ℕ → Text → Text → List ForeignKeyInfo ⊎ Cause
  unfolding scanned postgres_fk_row group_foreign_key_rows
  postgres_foreign_keys w db schema table =
      map_ok (λ (rows : List FkRow). grouped (group_foreign_key_rows rows))
        (scanned postgres_fk_row (d.query w db postgres_foreign_keys_query (table ∷ schema ∷ [])))
