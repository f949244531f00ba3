-- ===== src/Catalog/Listing.antt =====
-- core/dbcore/routines.go: what `Objects` lists, and what the routine query can do to it.
use mathlib.Core.List.{Perm}
use db_crawler.Catalog.Driver.{Driver}
use db_crawler.Catalog.Order.{table_less}
use db_crawler.Complete.Order.Sorted.{Sorted}
use db_crawler.Introspect.{TableInfo}
use db_crawler.Prelude.{List}
use db_crawler.Session.{Session}
use db_crawler.Text.{Text}

-- In order, and the same entries.
abbrev pub IsListing : List TableInfo → List TableInfo → Type 0
IsListing listed entries = Sorted table_less listed × Perm listed entries
