-- ===== src/Catalog/Order.antt =====
-- core/dbcore/introspect.go: the order of the tables in a listing. sort.Slice leaves the order of
-- entries with the same schema and name open; here it is the order in which they came.
use db_crawler.Complete.Order.{sort_by}
use db_crawler.Introspect.{TableInfo}
use db_crawler.Prelude.{Bool, List, if◌then◌else◌}
use db_crawler.Text.Url.{text_lt}
use db_crawler.Text.{text_eq}

unfoldable pub table_less : TableInfo → TableInfo → Bool
unfolding text_eq text_lt
table_less s t =
    if text_eq s.schema t.schema then text_lt s.name t.name else text_lt s.schema t.schema

unfoldable pub sort_tables : List TableInfo → List TableInfo
unfolding sort_by table_less
sort_tables = sort_by table_less
