-- ===== src/Catalog/SqlServer.antt =====
-- core/dbcore/introspect_sqlserver.go
use db_crawler.Catalog.Driver.{
  Reading, Driver, Scan, ◌>>=◌, pure, text, integer, boolean, null_text, scanned, map_ok, grouped,
}
use db_crawler.Catalog.Sql.SqlServer.{
  sqlserver_tables_query, sqlserver_columns_query, sqlserver_indexes_query,
  sqlserver_foreign_keys_query,
}
use db_crawler.Introspect.{
  TableInfo, ColumnInfo, IndexInfo, ForeignKeyInfo, IndexRow, FkRow, group_index_rows,
  group_foreign_key_rows,
}
use db_crawler.Prelude.Int.{ℤ, pos, negsuc, is_negative, half}
use db_crawler.Prelude.{
  ℕ, Bool, false, List, [], ◌∷◌, ◌++◌, Option, none, some, ◌==◌, ◌⊎◌, if◌then◌else◌,
}
use db_crawler.Protocol.{Cause}
use db_crawler.Text.{Text, codes, one_of}
use db_crawler.Dsn.{itoa_signed}

-- `name` with what stands in the parentheses behind it.
abbrev pub with_args : Text → Text → Text
with_args name args = name ++ (b'(' ∷ (args ++ b')' ∷ []))

abbrev is_max : ℤ → Bool
is_max (pos n) = false
is_max (negsuc n) = n == 0

-- A size for the binary and the text types; `max` where the catalog says -1.
unfoldable pub with_size : Text → ℤ → ℤ → Text
unfolding itoa_signed
with_size name max_len size =
    if is_max max_len then with_args name (codes "max") else with_args name (itoa_signed size)

abbrev pub equals : ℤ → ℕ → Bool
equals (pos n) m = n == m
equals (negsuc n) m = false

unfoldable pub sqlserver_type_name : Text → ℤ → ℤ → ℤ → Text
unfolding with_size one_of itoa_signed half
sqlserver_type_name name max_len precision scale =
    if one_of name ("nvarchar" ∷ "nchar" ∷ [])
    then with_size name max_len (half max_len)
    else if one_of name ("varchar" ∷ "char" ∷ "varbinary" ∷ "binary" ∷ [])
    then with_size name max_len max_len
    else if one_of name ("decimal" ∷ "numeric" ∷ [])
    then with_args name (itoa_signed precision ++ (b',' ∷ itoa_signed scale))
    else if one_of name ("datetime2" ∷ "datetimeoffset" ∷ "time" ∷ [])
    then (if equals scale 7 then name else with_args name (itoa_signed scale))
    else if one_of name ("float" ∷ [])
    then (if equals precision 53 then name else with_args name (itoa_signed precision))
    else name

-- An estimate below zero stands for none.
unfoldable pub known_estimate : ℤ → Option ℤ
known_estimate i = if is_negative i then none else some i

module _ {V : Type 0} ⦃r : Reading V⦄ where
  unfoldable pub sqlserver_table : Scan V TableInfo
  unfolding known_estimate
  sqlserver_table = do
    schema ← text
    name ← text
    kind ← text
    estimate ← integer
    comment ← text
    pure (record {
      schema = schema;
      name = name;
      kind = kind;
      row_estimate = known_estimate estimate;
      comment = comment;
    })

  unfoldable pub sqlserver_column : Scan V ColumnInfo
  unfolding sqlserver_type_name
  sqlserver_column = do
    name ← text
    type_name ← text
    max_len ← integer
    precision ← integer
    scale ← integer
    null_flag ← boolean
    auto ← boolean
    default_value ← null_text
    position ← integer
    comment ← text
    primary ← boolean
    pure (record {
      name = name;
      data_type = sqlserver_type_name type_name max_len precision scale;
      nullable = null_flag;
      default_value = default_value;
      is_primary_key = primary;
      is_auto_incr = auto;
      position = position;
      comment = comment;
    })

  unfoldable pub sqlserver_index_row : Scan V IndexRow
  sqlserver_index_row = do
    name ← text
    unique ← boolean
    primary ← boolean
    column ← text
    pure (record { name = name; column = column; unique = unique; primary = primary })

  unfoldable pub sqlserver_fk_row : Scan V FkRow
  sqlserver_fk_row = do
    name ← text
    column ← text
    ref_schema ← text
    ref_table ← text
    ref_column ← text
    on_delete ← text
    on_update ← text
    pure (record {
      name = name;
      column = column;
      ref_schema = ref_schema;
      ref_table = ref_table;
      ref_column = ref_column;
      on_delete = on_delete;
      on_update = on_update;
    })

module _ {V World : Type 0} ⦃r : Reading V⦄ (d : Driver V World) where
  unfoldable pub sqlserver_tables : World → ℕ → Text → List TableInfo ⊎ Cause
  unfolding scanned sqlserver_table
  sqlserver_tables w db schema =
      scanned sqlserver_table (d.query w db sqlserver_tables_query (schema ∷ []))

  unfoldable pub sqlserver_columns : World → ℕ → Text → Text → List ColumnInfo ⊎ Cause
  unfolding scanned sqlserver_column
  sqlserver_columns w db schema table =
      scanned sqlserver_column (d.query w db sqlserver_columns_query (table ∷ schema ∷ []))

  unfoldable pub sqlserver_indexes : World → ℕ → Text → Text → List IndexInfo ⊎ Cause
  unfolding scanned sqlserver_index_row group_index_rows
  sqlserver_indexes w db schema table =
      map_ok (λ (rows : List IndexRow). grouped (group_index_rows rows))
        (scanned sqlserver_index_row (d.query w db sqlserver_indexes_query (table ∷ schema ∷ [])))

  unfoldable pub sqlserver_foreign_keys : World → ℕ → Text → Text → List ForeignKeyInfo ⊎ Cause
  unfolding scanned sqlserver_fk_row group_foreign_key_rows
  sqlserver_foreign_keys w db schema table =
      map_ok (λ (rows : List FkRow). grouped (group_foreign_key_rows rows))
        (scanned sqlserver_fk_row (d.query w db sqlserver_foreign_keys_query (table ∷ schema ∷ [])))
