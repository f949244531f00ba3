-- ===== src/Catalog/Sql/SqlServer.antt =====
-- core/dbcore/introspect.go, routines.go and introspect_sqlserver.go: the statements that
-- are sent to SQL Server.
use db_crawler.Catalog.Driver.{sql}
use db_crawler.Prelude.{[], ◌∷◌}
use db_crawler.Text.{Text}

unfoldable pub sqlserver_databases_query : Text
unfolding sql
sqlserver_databases_query = sql (
    "" ∷ "\t\t\tSELECT name FROM sys.databases" ∷ "\t\t\tWHERE state = 0 AND HAS_DBACCESS(name) = 1"
    ∷ "\t\t\tORDER BY name" ∷ [])

unfoldable pub sqlserver_current_query : Text
unfolding sql
sqlserver_current_query = sql ("SELECT DB_NAME()" ∷ [])

unfoldable pub sqlserver_schemas_query : Text
unfolding sql
sqlserver_schemas_query = sql (
    "" ∷ "\t\t\tSELECT name FROM sys.schemas"
    ∷ "\t\t\tWHERE name NOT IN ('sys','INFORMATION_SCHEMA','guest','db_owner',"
    ∷ "\t\t\t                   'db_accessadmin','db_securityadmin','db_ddladmin',"
    ∷ "\t\t\t                   'db_backupoperator','db_datareader','db_datawriter',"
    ∷ "\t\t\t                   'db_denydatareader','db_denydatawriter')" ∷ "\t\t\tORDER BY name"
    ∷ [])

unfoldable pub sqlserver_tables_query : Text
unfolding sql
sqlserver_tables_query = sql (
    "" ∷ "SELECT sch.name AS [schema]," ∷ "       o.name    AS [name],"
    ∷ "       CASE o.type WHEN 'U' THEN 'table' ELSE 'view' END AS [type],"
    ∷ "       CAST(ISNULL(p.rows, -1) AS BIGINT) AS row_estimate,"
    ∷ "       CAST(ISNULL(ep.value, '') AS NVARCHAR(MAX)) AS comment" ∷ "FROM sys.objects o"
    ∷ "JOIN sys.schemas sch ON sch.schema_id = o.schema_id" ∷ "OUTER APPLY ("
    ∷ "    SELECT TOP 1 pt.rows" ∷ "    FROM sys.partitions pt"
    ∷ "    WHERE pt.object_id = o.object_id AND pt.index_id IN (0, 1)" ∷ "    ORDER BY pt.rows DESC"
    ∷ ") p" ∷ "OUTER APPLY (" ∷ "    SELECT TOP 1 x.value" ∷ "    FROM sys.extended_properties x"
    ∷ "    WHERE x.major_id = o.object_id AND x.minor_id = 0 AND x.name = 'MS_Description'" ∷ ") ep"
    ∷ "WHERE o.type IN ('U', 'V')" ∷ "  AND (@p1 = '' OR sch.name = @p1)"
    ∷ "ORDER BY sch.name, o.name" ∷ [])

unfoldable pub sqlserver_columns_query : Text
unfolding sql
sqlserver_columns_query = sql (
    "" ∷ "SELECT c.name," ∷ "       ty.name AS type_name,"
    ∷ "       c.max_length, c.precision, c.scale," ∷ "       c.is_nullable,"
    ∷ "       c.is_identity," ∷ "       dc.definition," ∷ "       c.column_id,"
    ∷ "       CAST(ISNULL(ep.value, '') AS NVARCHAR(MAX)) AS comment,"
    ∷ "       CAST(CASE WHEN pk.column_id IS NULL THEN 0 ELSE 1 END AS BIT) AS is_pk"
    ∷ "FROM sys.columns c" ∷ "JOIN sys.objects o  ON o.object_id = c.object_id"
    ∷ "JOIN sys.schemas sch ON sch.schema_id = o.schema_id"
    ∷ "JOIN sys.types ty ON ty.user_type_id = c.user_type_id"
    ∷ "LEFT JOIN sys.default_constraints dc ON dc.object_id = c.default_object_id" ∷ "OUTER APPLY ("
    ∷ "    SELECT TOP 1 x.value" ∷ "    FROM sys.extended_properties x"
    ∷ "    WHERE x.major_id = c.object_id AND x.minor_id = c.column_id AND x.name = 'MS_Description'"
    ∷ ") ep" ∷ "LEFT JOIN (" ∷ "    SELECT ic.object_id, ic.column_id"
    ∷ "    FROM sys.index_columns ic"
    ∷ "    JOIN sys.indexes i ON i.object_id = ic.object_id AND i.index_id = ic.index_id"
    ∷ "    WHERE i.is_primary_key = 1"
    ∷ ") pk ON pk.object_id = c.object_id AND pk.column_id = c.column_id"
    ∷ "WHERE o.name = @p1 AND (@p2 = '' OR sch.name = @p2)" ∷ "ORDER BY c.column_id" ∷ [])

unfoldable pub sqlserver_indexes_query : Text
unfolding sql
sqlserver_indexes_query = sql (
    "" ∷ "SELECT i.name, i.is_unique, i.is_primary_key, c.name AS column_name"
    ∷ "FROM sys.indexes i" ∷ "JOIN sys.objects o   ON o.object_id = i.object_id"
    ∷ "JOIN sys.schemas sch ON sch.schema_id = o.schema_id"
    ∷ "JOIN sys.index_columns ic ON ic.object_id = i.object_id AND ic.index_id = i.index_id"
    ∷ "JOIN sys.columns c ON c.object_id = ic.object_id AND c.column_id = ic.column_id"
    ∷ "WHERE o.name = @p1 AND (@p2 = '' OR sch.name = @p2)"
    ∷ "  AND i.type > 0 AND i.name IS NOT NULL" ∷ "  AND ic.is_included_column = 0"
    ∷ "ORDER BY i.name, ic.key_ordinal" ∷ [])

unfoldable pub sqlserver_foreign_keys_query : Text
unfolding sql
sqlserver_foreign_keys_query = sql (
    "" ∷ "SELECT fk.name," ∷ "       pc.name  AS column_name," ∷ "       rsch.name AS ref_schema,"
    ∷ "       ro.name   AS ref_table," ∷ "       rc.name   AS ref_column,"
    ∷ "       fk.delete_referential_action_desc," ∷ "       fk.update_referential_action_desc"
    ∷ "FROM sys.foreign_keys fk" ∷ "JOIN sys.objects o    ON o.object_id = fk.parent_object_id"
    ∷ "JOIN sys.schemas sch  ON sch.schema_id = o.schema_id"
    ∷ "JOIN sys.foreign_key_columns fkc ON fkc.constraint_object_id = fk.object_id"
    ∷ "JOIN sys.columns pc   ON pc.object_id = fkc.parent_object_id AND pc.column_id = fkc.parent_column_id"
    ∷ "JOIN sys.objects ro   ON ro.object_id = fk.referenced_object_id"
    ∷ "JOIN sys.schemas rsch ON rsch.schema_id = ro.schema_id"
    ∷ "JOIN sys.columns rc   ON rc.object_id = fkc.referenced_object_id AND rc.column_id = fkc.referenced_column_id"
    ∷ "WHERE o.name = @p1 AND (@p2 = '' OR sch.name = @p2)"
    ∷ "ORDER BY fk.name, fkc.constraint_column_id" ∷ [])

unfoldable pub sqlserver_routines_query : Text
unfolding sql
sqlserver_routines_query = sql (
    "" ∷ "SELECT sch.name," ∷ "       o.name,"
    ∷ "       CASE WHEN o.type = 'P' THEN 'procedure' ELSE 'function' END" ∷ "FROM sys.objects o"
    ∷ "JOIN sys.schemas sch ON sch.schema_id = o.schema_id"
    ∷ "WHERE o.type IN ('P', 'FN', 'IF', 'TF')" ∷ "  AND (@p1 = '' OR sch.name = @p1)"
    ∷ "ORDER BY sch.name, o.name" ∷ [])

unfoldable pub sqlserver_definition_query : Text
unfolding sql
sqlserver_definition_query = sql ("SELECT OBJECT_DEFINITION(OBJECT_ID(@p1))" ∷ [])
