-- ===== src/Catalog/Explore.antt =====
-- core/dbcore/protocol.go: `serverVersion`, and the explorer that `dispatch` and `Complete` ask.
use db_crawler.Catalog.Results.{one_value, banner, text_or_empty, right_or_none}
use db_crawler.Catalog.Browse.{databases, current_database, schemas, columns, table}
use db_crawler.Catalog.Routines.{objects, routine_definition}
use db_crawler.Catalog.Driver.{Reading, Driver, text, map_ok}
use db_crawler.Engine.{Engine, sqlserver, postgresql, mysql, sqlite}
use db_crawler.Prelude.{ℕ, [], ◌⊎◌, inr}
use db_crawler.Protocol.{Cause, other_error, Explorer}
use db_crawler.Session.{Session}
use db_crawler.Text.{Text, Unicode, codes}

module _ {V World : Type 0} ⦃r : Reading V⦄ ⦃u : Unicode⦄ (d : Driver V World) where
  unfoldable pub ask_version : World → ℕ → Text → Text ⊎ Cause
  unfolding banner
  ask_version w db query = map_ok banner (one_value text (d.query_row w db query []))

  unfoldable pub version_of : Engine → World → ℕ → Text ⊎ Cause
  unfolding ask_version
  version_of sqlserver w db = ask_version w db (codes "SELECT @@VERSION")
  version_of postgresql w db = ask_version w db (codes "SELECT version()")
  version_of mysql w db = ask_version w db (codes "SELECT VERSION()")
  version_of sqlite w db = ask_version w db (codes "SELECT sqlite_version()")
  version_of (Engine.other name) w db = inr other_error

  unfoldable pub server_version : World → Session → Text ⊎ Cause
  unfolding version_of
  server_version w s = version_of s.engine w s.db

  -- What `dispatch` and `Complete` ask of a session. Its statements are sent without the guard.
  unfoldable pub explorer : Explorer World
  unfolding databases current_database schemas objects routine_definition table server_version
      columns
  explorer = record {
    databases = databases d;
    current_database = λ w s. right_or_none (current_database d w s);
    schemas = schemas d;
    objects = objects d;
    routine_definition = routine_definition d;
    table = table d;
    server_version = λ w s. text_or_empty (server_version w s);
    answers = λ w s. record {
      objects = λ schema. right_or_none (objects d w s schema);
      columns = λ schema name. right_or_none (columns d w s schema name);
      schemas = right_or_none (schemas d w s);
    };
  }
