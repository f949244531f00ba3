-- ===== src/Catalog/Sql/Sqlite.antt =====
-- core/dbcore/introspect.go, routines.go and introspect_sqlite.go: the statements that
-- are sent to SQLite.
use db_crawler.Catalog.Driver.{sql}
use db_crawler.Prelude.{[], ◌∷◌}
use db_crawler.Text.{Text}

unfoldable pub sqlite_databases_query : Text
unfolding sql
sqlite_databases_query = sql ("SELECT name FROM pragma_database_list ORDER BY seq" ∷ [])

unfoldable pub sqlite_tables_query : Text
unfolding sql
sqlite_tables_query = sql (
    "" ∷ "SELECT name, type" ∷ "FROM sqlite_master"
    ∷ "WHERE type IN ('table','view') AND name NOT LIKE 'sqlite_%'" ∷ "ORDER BY type, name" ∷ [])

unfoldable pub sqlite_columns_query : Text
unfolding sql
sqlite_columns_query = sql (
    "SELECT cid, name, type, \"notnull\", dflt_value, pk FROM pragma_table_xinfo(?) ORDER BY cid"
    ∷ [])

unfoldable pub sqlite_indexes_query : Text
unfolding sql
sqlite_indexes_query = sql (
    "" ∷ "SELECT il.name, il.origin = 'pk' AS is_pk, il.\"unique\", ii.name"
    ∷ "FROM pragma_index_list(?) AS il" ∷ "JOIN pragma_index_info(il.name) AS ii"
    ∷ "ORDER BY il.seq, ii.seqno" ∷ [])

unfoldable pub sqlite_foreign_keys_query : Text
unfolding sql
sqlite_foreign_keys_query = sql (
    "SELECT id, seq, \"table\", \"from\", \"to\", on_delete, on_update FROM pragma_foreign_key_list(?) ORDER BY id, seq"
    ∷ [])
