-- ===== src/Catalog/Sql/MySql.antt =====
-- core/dbcore/introspect.go, routines.go and introspect_mysql.go: the statements that
-- are sent to MySQL.
use db_crawler.Catalog.Driver.{sql}
use db_crawler.Prelude.{[], ◌∷◌}
use db_crawler.Text.{Text}

unfoldable pub mysql_databases_query : Text
unfolding sql
mysql_databases_query = sql (
    "" ∷ "\t\t\tSELECT schema_name FROM information_schema.schemata"
    ∷ "\t\t\tWHERE schema_name NOT IN ('information_schema','performance_schema','mysql','sys')"
    ∷ "\t\t\tORDER BY schema_name" ∷ [])

unfoldable pub mysql_current_query : Text
unfolding sql
mysql_current_query = sql ("SELECT DATABASE()" ∷ [])

unfoldable pub mysql_tables_query : Text
unfolding sql
mysql_tables_query = sql (
    "" ∷ "SELECT table_schema, table_name,"
    ∷ "       CASE table_type WHEN 'VIEW' THEN 'view' ELSE 'table' END," ∷ "       table_rows,"
    ∷ "       COALESCE(table_comment, '')" ∷ "FROM information_schema.tables"
    ∷ "WHERE table_schema = COALESCE(NULLIF(?, ''), DATABASE())" ∷ "ORDER BY table_name" ∷ [])

unfoldable pub mysql_columns_query : Text
unfolding sql
mysql_columns_query = sql (
    "" ∷ "SELECT column_name," ∷ "       column_type," ∷ "       is_nullable,"
    ∷ "       column_default," ∷ "       ordinal_position," ∷ "       COALESCE(column_comment, ''),"
    ∷ "       column_key," ∷ "       extra" ∷ "FROM information_schema.columns"
    ∷ "WHERE table_name = ?" ∷ "  AND table_schema = COALESCE(NULLIF(?, ''), DATABASE())"
    ∷ "ORDER BY ordinal_position" ∷ [])

unfoldable pub mysql_indexes_query : Text
unfolding sql
mysql_indexes_query = sql (
    "" ∷ "SELECT index_name, non_unique, column_name, seq_in_index"
    ∷ "FROM information_schema.statistics" ∷ "WHERE table_name = ?"
    ∷ "  AND table_schema = COALESCE(NULLIF(?, ''), DATABASE())"
    ∷ "ORDER BY index_name, seq_in_index" ∷ [])

unfoldable pub mysql_foreign_keys_query : Text
unfolding sql
mysql_foreign_keys_query = sql (
    "" ∷ "SELECT k.constraint_name," ∷ "       k.column_name," ∷ "       k.referenced_table_schema,"
    ∷ "       k.referenced_table_name," ∷ "       k.referenced_column_name,"
    ∷ "       COALESCE(r.delete_rule, '')," ∷ "       COALESCE(r.update_rule, '')"
    ∷ "FROM information_schema.key_column_usage k"
    ∷ "LEFT JOIN information_schema.referential_constraints r"
    ∷ "       ON r.constraint_schema = k.constraint_schema"
    ∷ "      AND r.constraint_name = k.constraint_name" ∷ "WHERE k.table_name = ?"
    ∷ "  AND k.table_schema = COALESCE(NULLIF(?, ''), DATABASE())"
    ∷ "  AND k.referenced_table_name IS NOT NULL" ∷ "ORDER BY k.constraint_name, k.ordinal_position"
    ∷ [])

unfoldable pub mysql_routines_query : Text
unfolding sql
mysql_routines_query = sql (
    "" ∷ "SELECT routine_schema, routine_name, LOWER(routine_type)"
    ∷ "FROM information_schema.routines"
    ∷ "WHERE routine_schema = COALESCE(NULLIF(?, ''), DATABASE())" ∷ "ORDER BY routine_name" ∷ [])

unfoldable pub mysql_definition_query : Text
unfolding sql
mysql_definition_query = sql (
    "" ∷ "SELECT routine_definition" ∷ "FROM information_schema.routines" ∷ "WHERE routine_name = ?"
    ∷ "  AND routine_schema = COALESCE(NULLIF(?, ''), DATABASE())" ∷ "LIMIT 1" ∷ [])
