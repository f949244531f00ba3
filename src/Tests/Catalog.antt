-- ===== src/Tests/Catalog.antt =====
-- The theorems on quoting, connections and catalog rows at concrete inputs.
use db_crawler.Dsn.Build.{dsn}
use db_crawler.Dsn.Validation.{dsn_lem, but_database, validate-for_enumeration}
use db_crawler.Dsn.{validate, for_enumeration}
use db_crawler.Engine.Quoting.{read_qualified, read_qualified-qualify}
use db_crawler.Engine.{sqlserver, qualify}
use db_crawler.Introspect.Grouping.{Collected}
use db_crawler.Introspect.Steps.{firsts}
use db_crawler.Introspect.Keys.{
  index_name, index_start, index_add, index_of, fk_name, fk_start, fk_add, fk_rows, fk_described,
  group_index_rows_lem, group_foreign_key_rows_lem,
}
use db_crawler.Introspect.{
  IndexRow, IndexInfo, FkRow, ForeignKeyInfo, group_index_rows, group_foreign_key_rows,
}
use db_crawler.Prelude.{◌≡◌, true, false, List, [], ◌∷◌, some, ◌⊎◌, inr, inl}
use db_crawler.Tests.Base.{plain, config}
use db_crawler.Text.{Text, codes, is_nil}

read_qualified-qualify_example :
    read_qualified sqlserver (qualify sqlserver (codes "a].[b") (codes "c]]"))
    ≡ some (codes "a].[b", codes "c]]")
read_qualified-qualify_example = read_qualified-qualify sqlserver (codes "a].[b") (codes "c]]")

dsn_lem_example :
    ((validate config ≡ []) × ((t : Text) × (dsn config ≡ inr t)))
    ⊎ ((is_nil (validate config) ≡ false) × (dsn config ≡ inl (validate config)))
dsn_lem_example = dsn_lem config

validate-for_enumeration_example :
    validate (for_enumeration config) ≡ but_database (validate config)
validate-for_enumeration_example = validate-for_enumeration config

-- Two indexes, the rows of the first one apart, and one row without a column.
abbrev index_rows : List IndexRow
index_rows =
    record { name = codes "i"; column = codes "a"; unique = true; primary = false }
    ∷ record { name = codes "j"; column = []; unique = false; primary = false }
    ∷ record { name = codes "i"; column = codes "b"; unique = true; primary = false }
    ∷ []

group_index_rows_lem_example :
    (is : List IndexInfo) × (group_index_rows index_rows ≡ some is)
    × Collected index_name index_start index_add
        (λ (k : Text). index_of k index_rows)
        (firsts index_name index_start index_add [] index_rows)
        is
group_index_rows_lem_example = group_index_rows_lem index_rows

abbrev fk_row : Text → FkRow
fk_row c = record {
  name = codes "fk";
  column = c;
  ref_schema = codes "s";
  ref_table = codes "t";
  ref_column = codes "id";
  on_delete = [];
  on_update = [];
}

abbrev key_rows : List FkRow
key_rows = fk_row (codes "a") ∷ fk_row (codes "b") ∷ []

group_foreign_key_rows_lem_example :
    (is : List ForeignKeyInfo) × (group_foreign_key_rows key_rows ≡ some is)
    × Collected fk_name fk_start fk_add
        (λ (k : Text). fk_described (fk_rows k key_rows))
        (firsts fk_name fk_start fk_add [] key_rows)
        is
group_foreign_key_rows_lem_example = group_foreign_key_rows_lem key_rows
