-- ===== src/Catalog/Fixed/Explored.antt =====
-- core/dbcore/introspect.go, routines.go and protocol.go: the explorer as a whole.
use db_crawler.Catalog.Fixed.{Agree}
use db_crawler.Catalog.Fixed.Strings.{
  databases-Agree, current-Agree, schemas-Agree, definitions-Agree, versions-Agree,
}
use db_crawler.Catalog.Fixed.Tables.{
  tables-Agree, columns-Agree, indexes-Agree, foreign_keys-Agree, routines-Agree,
}
use db_crawler.Catalog.Browse.{table}
use db_crawler.Catalog.Driver.{Reading, Driver}
use db_crawler.Catalog.Explore.{explorer}
use db_crawler.Catalog.Results.{right_or_none, text_or_empty, detail_of, listing}
use db_crawler.Catalog.Routines.{objects}
use db_crawler.Prelude.{◌≡◌}
use db_crawler.Session.{Session}
use db_crawler.Text.{Text, Unicode}

module _ {V World : Type 0} ⦃r : Reading V⦄ ⦃u : Unicode⦄ (d e : Driver V World)
    (same : Agree d e) where
  objects-Agree :
      (w : World) (s : Session) (schema : Text) → objects d w s schema ≡ objects e w s schema
  unfolding objects
  objects-Agree w s schema i =
      listing (tables-Agree d e same s.engine w s.db schema i)
        (routines-Agree d e same s.engine w s.db schema i)

  table-Agree :
      (w : World) (s : Session) (schema name : Text)
      → table d w s schema name ≡ table e w s schema name
  unfolding table
  table-Agree w s schema name i =
      detail_of s.engine schema name (columns-Agree d e same s.engine w s.db schema name i)
        (indexes-Agree d e same s.engine w s.db schema name i)
        (foreign_keys-Agree d e same s.engine w s.db schema name i)

  -- Two servers that answer the fixed catalog statements alike, with any arguments, give the
  -- same explorer: what every catalog operation yields, for all sessions and for all names of
  -- schemas, tables and routines, depends on no other statement, so no name becomes part of
  -- the SQL that is sent.
  pub explorer-Agree : explorer d ≡ explorer e
  unfolding explorer
  explorer-Agree i = record {
    databases = λ w s. databases-Agree d e same s.engine w s i;
    current_database = λ w s. right_or_none (current-Agree d e same s.engine w s i);
    schemas = λ w s. schemas-Agree d e same s.engine w s i;
    objects = λ w s schema. objects-Agree w s schema i;
    routine_definition =
        λ w s schema name kind. definitions-Agree d e same s.engine w s schema name i;
    table = λ w s schema name. table-Agree w s schema name i;
    server_version = λ w s. text_or_empty (versions-Agree d e same s.engine w s.db i);
    answers = λ w s. record {
      objects = λ schema. right_or_none (objects-Agree w s schema i);
      columns = λ schema name. right_or_none (columns-Agree d e same s.engine w s.db schema name i);
      schemas = right_or_none (schemas-Agree d e same s.engine w s i);
    };
  }
