-- ===== src/Catalog/Sql/Postgres.antt =====
-- core/dbcore/introspect.go, routines.go and introspect_postgres.go: the statements that
-- are sent to PostgreSQL.
use db_crawler.Catalog.Driver.{sql}
use db_crawler.Prelude.{[], ◌∷◌}
use db_crawler.Text.{Text}

unfoldable pub postgres_databases_query : Text
unfolding sql
postgres_databases_query = sql (
    "" ∷ "\t\t\tSELECT datname FROM pg_database" ∷ "\t\t\tWHERE datallowconn AND NOT datistemplate"
    ∷ "\t\t\t  AND has_database_privilege(datname, 'CONNECT')" ∷ "\t\t\tORDER BY datname" ∷ [])

unfoldable pub postgres_current_query : Text
unfolding sql
postgres_current_query = sql ("SELECT current_database()" ∷ [])

unfoldable pub postgres_schemas_query : Text
unfolding sql
postgres_schemas_query = sql (
    "" ∷ "\t\t\tSELECT nspname FROM pg_namespace"
    ∷ "\t\t\tWHERE nspname NOT LIKE 'pg\\_%' AND nspname <> 'information_schema'"
    ∷ "\t\t\t  AND has_schema_privilege(nspname, 'USAGE')" ∷ "\t\t\tORDER BY nspname" ∷ [])

unfoldable pub postgres_tables_query : Text
unfolding sql
postgres_tables_query = sql (
    "" ∷ "SELECT n.nspname AS schema_name," ∷ "       c.relname AS table_name,"
    ∷ "       CASE c.relkind" ∷ "            WHEN 'r' THEN 'table'"
    ∷ "            WHEN 'p' THEN 'table'" ∷ "            WHEN 'v' THEN 'view'"
    ∷ "            WHEN 'm' THEN 'materialized view'" ∷ "            WHEN 'f' THEN 'foreign table'"
    ∷ "            ELSE 'table'" ∷ "       END AS object_type,"
    ∷ "       CASE WHEN c.reltuples < 0 THEN NULL ELSE c.reltuples::bigint END AS row_estimate,"
    ∷ "       COALESCE(obj_description(c.oid, 'pg_class'), '') AS comment" ∷ "FROM pg_class c"
    ∷ "JOIN pg_namespace n ON n.oid = c.relnamespace" ∷ "WHERE c.relkind IN ('r','p','v','m','f')"
    ∷ "  AND ($1 = '' OR n.nspname = $1)" ∷ "  AND n.nspname NOT LIKE 'pg\\_%'"
    ∷ "  AND n.nspname <> 'information_schema'" ∷ "  AND has_table_privilege(c.oid, 'SELECT')"
    ∷ "ORDER BY n.nspname, c.relname" ∷ [])

unfoldable pub postgres_columns_query : Text
unfolding sql
postgres_columns_query = sql (
    "" ∷ "SELECT a.attname," ∷ "       format_type(a.atttypid, a.atttypmod) AS data_type,"
    ∷ "       NOT a.attnotnull AS nullable,"
    ∷ "       pg_get_expr(d.adbin, d.adrelid) AS default_expr," ∷ "       a.attnum,"
    ∷ "       COALESCE(col_description(a.attrelid, a.attnum), '') AS comment,"
    ∷ "       COALESCE(pk.is_pk, false) AS is_pk,"
    ∷ "       (a.attidentity <> '' OR pg_get_expr(d.adbin, d.adrelid) LIKE 'nextval(%') AS is_auto"
    ∷ "FROM pg_attribute a" ∷ "JOIN pg_class c      ON c.oid = a.attrelid"
    ∷ "JOIN pg_namespace n  ON n.oid = c.relnamespace"
    ∷ "LEFT JOIN pg_attrdef d ON d.adrelid = a.attrelid AND d.adnum = a.attnum"
    ∷ "LEFT JOIN LATERAL (" ∷ "    SELECT true AS is_pk" ∷ "    FROM pg_index i"
    ∷ "    WHERE i.indrelid = c.oid AND i.indisprimary AND a.attnum = ANY (i.indkey)"
    ∷ "    LIMIT 1" ∷ ") pk ON true" ∷ "WHERE c.relname = $1" ∷ "  AND ($2 = '' OR n.nspname = $2)"
    ∷ "  AND a.attnum > 0" ∷ "  AND NOT a.attisdropped" ∷ "ORDER BY a.attnum" ∷ [])

unfoldable pub postgres_indexes_query : Text
unfolding sql
postgres_indexes_query = sql (
    "" ∷ "SELECT ci.relname AS index_name," ∷ "       i.indisunique," ∷ "       i.indisprimary,"
    ∷ "       a.attname" ∷ "FROM pg_index i" ∷ "JOIN pg_class c       ON c.oid = i.indrelid"
    ∷ "JOIN pg_namespace n   ON n.oid = c.relnamespace"
    ∷ "JOIN pg_class ci      ON ci.oid = i.indexrelid"
    ∷ "JOIN generate_subscripts(i.indkey, 1) AS k(ord) ON true"
    ∷ "JOIN pg_attribute a   ON a.attrelid = c.oid AND a.attnum = i.indkey[k.ord]"
    ∷ "WHERE c.relname = $1 AND ($2 = '' OR n.nspname = $2)" ∷ "ORDER BY ci.relname, k.ord" ∷ [])

unfoldable pub postgres_foreign_keys_query : Text
unfolding sql
postgres_foreign_keys_query = sql (
    "" ∷ "SELECT con.conname," ∷ "       att.attname        AS column_name,"
    ∷ "       rn.nspname         AS ref_schema," ∷ "       rc.relname         AS ref_table,"
    ∷ "       ratt.attname       AS ref_column,"
    ∷ "       CASE con.confdeltype WHEN 'a' THEN 'NO ACTION' WHEN 'r' THEN 'RESTRICT'"
    ∷ "            WHEN 'c' THEN 'CASCADE' WHEN 'n' THEN 'SET NULL' WHEN 'd' THEN 'SET DEFAULT' END,"
    ∷ "       CASE con.confupdtype WHEN 'a' THEN 'NO ACTION' WHEN 'r' THEN 'RESTRICT'"
    ∷ "            WHEN 'c' THEN 'CASCADE' WHEN 'n' THEN 'SET NULL' WHEN 'd' THEN 'SET DEFAULT' END"
    ∷ "FROM pg_constraint con" ∷ "JOIN pg_class c      ON c.oid = con.conrelid"
    ∷ "JOIN pg_namespace n  ON n.oid = c.relnamespace"
    ∷ "JOIN pg_class rc     ON rc.oid = con.confrelid"
    ∷ "JOIN pg_namespace rn ON rn.oid = rc.relnamespace"
    ∷ "JOIN generate_subscripts(con.conkey, 1) AS k(ord) ON true"
    ∷ "JOIN pg_attribute att  ON att.attrelid = con.conrelid  AND att.attnum = con.conkey[k.ord]"
    ∷ "JOIN pg_attribute ratt ON ratt.attrelid = con.confrelid AND ratt.attnum = con.confkey[k.ord]"
    ∷ "WHERE con.contype = 'f'" ∷ "  AND c.relname = $1 AND ($2 = '' OR n.nspname = $2)"
    ∷ "ORDER BY con.conname, k.ord" ∷ [])

unfoldable pub postgres_routines_query : Text
unfolding sql
postgres_routines_query = sql (
    "" ∷ "SELECT n.nspname," ∷ "       p.proname,"
    ∷ "       CASE p.prokind WHEN 'p' THEN 'procedure' ELSE 'function' END" ∷ "FROM pg_proc p"
    ∷ "JOIN pg_namespace n ON n.oid = p.pronamespace" ∷ "WHERE ($1 = '' OR n.nspname = $1)"
    ∷ "  AND n.nspname NOT LIKE 'pg\\_%'" ∷ "  AND n.nspname <> 'information_schema'"
    ∷ "  AND p.prokind IN ('f', 'p')" ∷ "ORDER BY n.nspname, p.proname" ∷ [])

unfoldable pub postgres_definition_query : Text
unfolding sql
postgres_definition_query = sql (
    "" ∷ "SELECT pg_get_functiondef(p.oid)" ∷ "FROM pg_proc p"
    ∷ "JOIN pg_namespace n ON n.oid = p.pronamespace"
    ∷ "WHERE p.proname = $1 AND ($2 = '' OR n.nspname = $2)" ∷ "LIMIT 1" ∷ [])
