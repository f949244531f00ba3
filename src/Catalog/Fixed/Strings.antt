-- ===== src/Catalog/Fixed/Strings.antt =====
-- core/dbcore/introspect.go, routines.go and protocol.go: the texts that the explorer asks for.
use db_crawler.Catalog.Fixed.{Asked, statement_for, Agree}
use db_crawler.Catalog.Browse.{query_strings, databases_of, current_of, schemas_of}
use db_crawler.Catalog.Driver.{Reading, Driver, text, null_text, scanned, map_ok}
use db_crawler.Catalog.Explore.{version_of, ask_version}
use db_crawler.Catalog.Results.{valid, first, one_value, readable, banner}
use db_crawler.Catalog.Routines.{query_string, definition_of}
use db_crawler.Engine.{Engine, sqlserver, postgresql, mysql, sqlite}
use db_crawler.Prelude.{ℕ, ◌≡◌, refl, ap, List, [], some}
use db_crawler.Session.{Session}
use db_crawler.Text.{Text, Unicode}

module _ {V World : Type 0} ⦃r : Reading V⦄ ⦃u : Unicode⦄ (d e : Driver V World)
    (same : Agree d e) where
  -- A list of texts, by what asks for it.
  pub strings-Agree :
      (engine : Engine) (asked : Asked) (q : Text)
      → statement_for engine asked ≡ some q
      → (w : World) (s : Session) → query_strings d w s q ≡ query_strings e w s q
  unfolding query_strings
  strings-Agree engine asked q h w s =
      ap (λ x. map_ok valid (scanned null_text x)) (same engine asked q h w s.db []).0

  pub databases-Agree :
      (g : Engine) (w : World) (s : Session) → databases_of d g w s ≡ databases_of e g w s
  unfolding databases_of statement_for
  databases-Agree sqlserver w s = strings-Agree sqlserver Asked.list_databases _ refl w s
  databases-Agree postgresql w s = strings-Agree postgresql Asked.list_databases _ refl w s
  databases-Agree mysql w s = strings-Agree mysql Asked.list_databases _ refl w s
  databases-Agree sqlite w s = strings-Agree sqlite Asked.list_databases _ refl w s
  databases-Agree (Engine.other name) w s = refl

  pub current-Agree :
      (g : Engine) (w : World) (s : Session) → current_of d g w s ≡ current_of e g w s
  unfolding current_of statement_for
  current-Agree sqlserver w s = ap (map_ok first) (strings-Agree sqlserver Asked.current _ refl w s)
  current-Agree postgresql w s =
      ap (map_ok first) (strings-Agree postgresql Asked.current _ refl w s)
  current-Agree mysql w s = ap (map_ok first) (strings-Agree mysql Asked.current _ refl w s)
  current-Agree sqlite w s = refl
  current-Agree (Engine.other name) w s = refl

  pub schemas-Agree :
      (g : Engine) (w : World) (s : Session) → schemas_of d g w s ≡ schemas_of e g w s
  unfolding schemas_of statement_for
  schemas-Agree sqlserver w s = strings-Agree sqlserver Asked.list_schemas _ refl w s
  schemas-Agree postgresql w s = strings-Agree postgresql Asked.list_schemas _ refl w s
  schemas-Agree mysql w s = refl
  schemas-Agree sqlite w s = refl
  schemas-Agree (Engine.other name) w s = refl

  definition-Agree :
      (engine : Engine) (q : Text)
      → statement_for engine Asked.definition ≡ some q
      → (w : World) (s : Session) (args : List Text)
      → query_string d w s q args ≡ query_string e w s q args
  unfolding query_string
  definition-Agree engine q h w s args =
      ap (λ x. readable (one_value null_text x)) (same engine Asked.definition q h w s.db args).1

  pub definitions-Agree :
      (g : Engine) (w : World) (s : Session) (schema name : Text)
      → definition_of d g w s schema name ≡ definition_of e g w s schema name
  unfolding definition_of statement_for
  definitions-Agree sqlserver w s schema name = definition-Agree sqlserver _ refl w s _
  definitions-Agree postgresql w s schema name = definition-Agree postgresql _ refl w s _
  definitions-Agree mysql w s schema name = definition-Agree mysql _ refl w s _
  definitions-Agree sqlite w s schema name = refl
  definitions-Agree (Engine.other g) w s schema name = refl

  version-Agree :
      (engine : Engine) (q : Text)
      → statement_for engine Asked.version ≡ some q
      → (w : World) (db : ℕ) → ask_version d w db q ≡ ask_version e w db q
  unfolding ask_version
  version-Agree engine q h w db =
      ap (λ x. map_ok banner (one_value text x)) (same engine Asked.version q h w db []).1

  pub versions-Agree : (g : Engine) (w : World) (db : ℕ) → version_of d g w db ≡ version_of e g w db
  unfolding version_of statement_for
  versions-Agree sqlserver w db = version-Agree sqlserver _ refl w db
  versions-Agree postgresql w db = version-Agree postgresql _ refl w db
  versions-Agree mysql w db = version-Agree mysql _ refl w db
  versions-Agree sqlite w db = version-Agree sqlite _ refl w db
  versions-Agree (Engine.other name) w db = refl
