-- ===== src/Catalog/Rowids.antt =====
-- core/dbcore/introspect_sqlite.go: which columns of a SQLite table are assigned by themselves.
use db_crawler.Catalog.Driver.{Driver}
use db_crawler.Catalog.Sqlite.{key_count}
use db_crawler.Introspect.{ColumnInfo}
use db_crawler.Prelude.{◌≡◌, ◌↔◌, true, false, List}
use db_crawler.Text.{Text, codes, trim_space, equal_fold}

-- The only column of the primary key, declared as an integer.
abbrev pub IsRowid : List ColumnInfo → ColumnInfo → Type 0
IsRowid cs c =
    (key_count cs ≡ 1)
    × (c.is_primary_key ≡ true)
    × (equal_fold (codes "INTEGER") (trim_space c.data_type) ≡ true)

abbrev pub Assigned : List ColumnInfo → ColumnInfo → Type 0
Assigned cs c = (c.is_auto_incr ≡ true) ↔ IsRowid cs c

abbrev Clear : ColumnInfo → Type 0
Clear c = c.is_auto_incr ≡ false
