-- ===== src/Catalog/Sqlite.antt =====
-- core/dbcore/introspect_sqlite.go
use db_crawler.Catalog.Driver.{
  Reading, Driver, Scan, ◌>>=◌, pure, text, integer, null_text, scanned, map_ok, grouped, text_or,
}
use db_crawler.Catalog.Sql.Sqlite.{
  sqlite_tables_query, sqlite_columns_query, sqlite_indexes_query, sqlite_foreign_keys_query,
}
use db_crawler.Dsn.{itoa_signed}
use db_crawler.Introspect.{
  TableInfo, ColumnInfo, IndexInfo, ForeignKeyInfo, IndexRow, FkRow, group_index_rows,
  group_foreign_key_rows,
}
use db_crawler.Catalog.Order.{sort_tables}
use db_crawler.Prelude.Int.{is_zero, exceeds, is_one, add_one}
use db_crawler.Prelude.{
  ℕ, ◌+◌, true, false, ◌&&◌, List, [], ◌∷◌, ◌++◌, none, ◌==◌, ◌⊎◌, map, if◌then◌else◌,
}
use db_crawler.Protocol.{Cause}
use db_crawler.Text.{Text, codes, trim_space, equal_fold}

-- The columns of the primary key, which the source counts in `pkCount`.
unfoldable pub key_count : List ColumnInfo → ℕ
key_count [] = 0
key_count (c ∷ cs) = (if c.is_primary_key then 1 else 0) + key_count cs

-- The column stands for the rowid if it is the only one of the primary key.
unfoldable pub mark_rowid : ColumnInfo → ColumnInfo
unfolding equal_fold trim_space
mark_rowid c =
    if c.is_primary_key && equal_fold (codes "INTEGER") (trim_space c.data_type)
    then record c { is_auto_incr = true }
    else c

unfoldable pub mark_rowids : List ColumnInfo → List ColumnInfo
unfolding key_count mark_rowid
mark_rowids cs = if key_count cs == 1 then map mark_rowid cs else cs

module _ {V : Type 0} ⦃r : Reading V⦄ where
  unfoldable pub sqlite_table : Scan V TableInfo
  sqlite_table = do
    name ← text
    kind ← text
    pure (record { schema = []; name = name; kind = kind; row_estimate = none; comment = [] })

  unfoldable pub sqlite_column : Scan V ColumnInfo
  unfolding add_one
  sqlite_column = do
    cid ← integer
    name ← text
    data_type ← text
    not_null ← integer
    default_value ← null_text
    pk ← integer
    pure (record {
      name = name;
      data_type = data_type;
      nullable = is_zero not_null;
      default_value = default_value;
      is_primary_key = exceeds pk 0;
      is_auto_incr = false;
      position = add_one cid;
      comment = [];
    })

  unfoldable pub sqlite_index_row : Scan V IndexRow
  sqlite_index_row = do
    name ← text
    is_pk ← integer
    unique ← integer
    column ← null_text
    pure (record {
      name = name;
      column = text_or [] column;
      unique = is_one unique;
      primary = is_one is_pk;
    })

  -- The second variable, `seq`, is not used.
  unfoldable pub sqlite_fk_row : Text → Scan V FkRow
  unfolding itoa_signed
  sqlite_fk_row table = do
    id ← integer
    seq ← integer
    ref_table ← text
    column ← text
    to ← null_text
    on_delete ← text
    on_update ← text
    pure (record {
      name = codes "fk_" ++ (table ++ (b'_' ∷ itoa_signed id));
      column = column;
      ref_schema = [];
      ref_table = ref_table;
      ref_column = text_or (codes "rowid") to;
      on_delete = on_delete;
      on_update = on_update;
    })

module _ {V World : Type 0} ⦃r : Reading V⦄ (d : Driver V World) where
  unfoldable pub sqlite_tables : World → ℕ → List TableInfo ⊎ Cause
  unfolding scanned sqlite_table sort_tables
  sqlite_tables w db =
      map_ok sort_tables (scanned sqlite_table (d.query w db sqlite_tables_query []))

  unfoldable pub sqlite_columns : World → ℕ → Text → List ColumnInfo ⊎ Cause
  unfolding scanned sqlite_column mark_rowids
  sqlite_columns w db table =
      map_ok mark_rowids (scanned sqlite_column (d.query w db sqlite_columns_query (table ∷ [])))

  unfoldable pub sqlite_indexes : World → ℕ → Text → List IndexInfo ⊎ Cause
  unfolding scanned sqlite_index_row group_index_rows
  sqlite_indexes w db table =
      map_ok (λ (rows : List IndexRow). grouped (group_index_rows rows))
        (scanned sqlite_index_row (d.query w db sqlite_indexes_query (table ∷ [])))

  unfoldable pub sqlite_foreign_keys : World → ℕ → Text → List ForeignKeyInfo ⊎ Cause
  unfolding scanned sqlite_fk_row group_foreign_key_rows
  sqlite_foreign_keys w db table =
      map_ok (λ (rows : List FkRow). grouped (group_foreign_key_rows rows))
        (scanned (sqlite_fk_row table) (d.query w db sqlite_foreign_keys_query (table ∷ [])))
