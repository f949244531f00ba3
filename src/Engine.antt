-- ===== src/Engine.antt =====
-- core/dbcore/engine.go: the database products, their defaults and their quoting rules.
pub mod Quoting
use db_crawler.Prelude.{
  ℕ, Bool, true, false, ◌||◌, [], ◌∷◌, ◌++◌, Option, none, some, ◌==◌, if◌then◌else◌,
}
use db_crawler.Text.{Text, Unicode, codes, one_of, to_lower, trim_space, itoa, is_nil}

-- The Go type is a string; `other` holds any string but the four constants.
pub data Engine : Type 0 where
  sqlserver postgresql mysql sqlite : Engine
  other : Text → Engine

-- Comparisons with the constants.
abbrev pub is_sqlserver : Engine → Bool
is_sqlserver sqlserver = true
is_sqlserver _ = false

abbrev pub is_postgresql : Engine → Bool
is_postgresql postgresql = true
is_postgresql _ = false

abbrev pub is_mysql : Engine → Bool
is_mysql mysql = true
is_mysql _ = false

abbrev pub is_sqlite : Engine → Bool
is_sqlite sqlite = true
is_sqlite _ = false

-- `none` is the error for an unknown name.
unfoldable pub parse_engine : ⦃u : Unicode⦄ → Text → Option Engine
unfolding to_lower trim_space one_of
parse_engine s =
    let name = to_lower (trim_space s) in
    if one_of name ("sqlserver" ∷ "mssql" ∷ "sql server" ∷ "azuresql" ∷ "azure" ∷ [])
    then some sqlserver
    else if one_of name ("postgres" ∷ "postgresql" ∷ "pg" ∷ [])
    then some postgresql
    else if one_of name ("mysql" ∷ "mariadb" ∷ [])
    then some mysql
    else if one_of name ("sqlite" ∷ "sqlite3" ∷ [])
    then some sqlite
    else none

-- string(e)
unfoldable pub engine_name : Engine → Text
engine_name sqlserver = codes "sqlserver"
engine_name postgresql = codes "postgres"
engine_name mysql = codes "mysql"
engine_name sqlite = codes "sqlite"
engine_name (other name) = name

unfoldable pub driver_name : Engine → Text
driver_name sqlserver = codes "sqlserver"
driver_name postgresql = codes "pgx"
driver_name mysql = codes "mysql"
driver_name sqlite = codes "sqlite"
driver_name (other name) = name

unfoldable pub default_port : Engine → ℕ
default_port sqlserver = 1433
default_port postgresql = 5432
default_port mysql = 3306
default_port _ = 0

unfoldable pub placeholder : Engine → ℕ → Text
unfolding itoa
placeholder sqlserver n = codes "@p" ++ itoa n
placeholder postgresql n = codes "$" ++ itoa n
placeholder _ n = codes "?"

-- strings.ReplaceAll of one rune by two of it
unfoldable pub double : ℕ → Text → Text
double q [] = []
double q (c ∷ s) = let rest = double q s in if c == q then q ∷ q ∷ rest else c ∷ rest

unfoldable pub quote_identifier : Engine → Text → Text
unfolding double
quote_identifier sqlserver name = b'[' ∷ (double b']' name ++ b']' ∷ [])
quote_identifier mysql name = b'`' ∷ (double b'`' name ++ b'`' ∷ [])
quote_identifier _ name = b'"' ∷ (double b'"' name ++ b'"' ∷ [])

unfoldable pub qualify : Engine → Text → Text → Text
unfolding quote_identifier
qualify e schema table =
    if is_nil schema
    then quote_identifier e table
    else quote_identifier e schema ++ (b'.' ∷ quote_identifier e table)

unfoldable pub supports_schemas : Engine → Bool
supports_schemas e = is_sqlserver e || is_postgresql e
