-- ===== src/Catalog/MySql.antt =====
-- core/dbcore/introspect_mysql.go
use db_crawler.Catalog.Driver.{
  Reading, Driver, Scan, ◌>>=◌, pure, text, integer, null_text, null_integer, scanned, map_ok,
  grouped,
}
use db_crawler.Catalog.Sql.MySql.{
  mysql_tables_query, mysql_columns_query, mysql_indexes_query, mysql_foreign_keys_query,
}
use db_crawler.Introspect.{
  TableInfo, ColumnInfo, IndexInfo, ForeignKeyInfo, IndexRow, FkRow, group_index_rows,
  group_foreign_key_rows,
}
use db_crawler.Prelude.Int.{ℤ, is_zero}
use db_crawler.Prelude.{ℕ, List, [], ◌∷◌, Option, none, ◌⊎◌, if◌then◌else◌}
use db_crawler.Protocol.{Cause}
use db_crawler.Text.{Text, Unicode, codes, equal_fold, contains, to_lower, text_eq}

-- The estimate counts for tables only.
unfoldable pub mysql_estimate : Text → Option ℤ → Option ℤ
unfolding text_eq
mysql_estimate kind estimate = if text_eq kind (codes "table") then estimate else none

module _ {V : Type 0} ⦃r : Reading V⦄ where
  unfoldable pub mysql_table : Scan V TableInfo
  unfolding mysql_estimate
  mysql_table = do
    schema ← text
    name ← text
    kind ← text
    estimate ← null_integer
    comment ← text
    pure (record {
      schema = schema;
      name = name;
      kind = kind;
      row_estimate = mysql_estimate kind estimate;
      comment = comment;
    })

  unfoldable pub mysql_column : ⦃u : Unicode⦄ → Scan V ColumnInfo
  unfolding equal_fold text_eq contains to_lower
  mysql_column = do
    name ← text
    data_type ← text
    null_flag ← text
    default_value ← null_text
    position ← integer
    comment ← text
    key ← text
    extra ← text
    pure (record {
      name = name;
      data_type = data_type;
      nullable = equal_fold (codes "YES") null_flag;
      default_value = default_value;
      is_primary_key = text_eq key (codes "PRI");
      is_auto_incr = contains (to_lower extra) (codes "auto_increment");
      position = position;
      comment = comment;
    })

  -- The last variable, `seq`, is not used.
  unfoldable pub mysql_index_row : Scan V IndexRow
  unfolding text_eq
  mysql_index_row = do
    name ← text
    non_unique ← integer
    column ← text
    seq ← integer
    pure (record {
      name = name;
      column = column;
      unique = is_zero non_unique;
      primary = text_eq name (codes "PRIMARY");
    })

  -- The referenced schema is only kept where it differs.
  unfoldable pub mysql_fk_row : Text → Scan V FkRow
  unfolding text_eq
  mysql_fk_row schema = do
    name ← text
    column ← text
    ref_schema ← text
    ref_table ← text
    ref_column ← text
    on_delete ← text
    on_update ← text
    pure (record {
      name = name;
      column = column;
      ref_schema = if text_eq ref_schema schema then [] else ref_schema;
      ref_table = ref_table;
      ref_column = ref_column;
      on_delete = on_delete;
      on_update = on_update;
    })

module _ {V World : Type 0} ⦃r : Reading V⦄ ⦃u : Unicode⦄ (d : Driver V World) where
  unfoldable pub mysql_tables : World → ℕ → Text → List TableInfo ⊎ Cause
  unfolding scanned mysql_table
  mysql_tables w db schema = scanned mysql_table (d.query w db mysql_tables_query (schema ∷ []))

  unfoldable pub mysql_columns : World → ℕ → Text → Text → List ColumnInfo ⊎ Cause
  unfolding scanned mysql_column
  mysql_columns w db schema table =
      scanned mysql_column (d.query w db mysql_columns_query (table ∷ schema ∷ []))

  unfoldable pub mysql_indexes : World → ℕ → Text → Text → List IndexInfo ⊎ Cause
  unfolding scanned mysql_index_row group_index_rows
  mysql_indexes w db schema table =
      map_ok (λ (rows : List IndexRow). grouped (group_index_rows rows))
        (scanned mysql_index_row (d.query w db mysql_indexes_query (table ∷ schema ∷ [])))

  unfoldable pub mysql_foreign_keys : World → ℕ → Text → Text → List ForeignKeyInfo ⊎ Cause
  unfolding scanned mysql_fk_row group_foreign_key_rows
  mysql_foreign_keys w db schema table =
      map_ok (λ (rows : List FkRow). grouped (group_foreign_key_rows rows))
        (scanned (mysql_fk_row schema)
          (d.query w db mysql_foreign_keys_query (table ∷ schema ∷ [])))
