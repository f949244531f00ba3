-- ===== src/Dsn.antt =====
-- core/dbcore/dsn.go: a saved connection, its validation and the forms derived from it.
pub mod Build
pub mod Validation
pub mod Redact
pub mod Passwords
use db_crawler.Engine.{
  Engine, sqlserver, postgresql, mysql, sqlite, other, default_port, is_sqlserver, is_postgresql,
  is_sqlite,
}
use db_crawler.Prelude.Int.{ℤ, pos, negsuc, is_negative, is_zero, exceeds, to_nat}
use db_crawler.Prelude.{
  ℕ, Bool, true, false, not, ◌&&◌, ◌||◌, List, [], ◌∷◌, ◌++◌, Option, none, some, if◌then◌else◌,
}
use db_crawler.Text.Url.{join_host_port}
use db_crawler.Text.{
  Text, Unicode, codes, text_eq, one_of, is_nil, to_lower, trim_space, contains, itoa,
}

pub record Config : Type 0 where
  pub engine : Engine
  pub host : Text
  pub port : ℤ
  pub database : Text
  pub user : Text
  pub password : Text
  pub file : Text
  pub auth : Text
  pub tls : Text
  pub connect_timeout_seconds : ℤ
  pub read_only : Bool
  pub params : List (Text × Text)
  pub raw_dsn : Text

pub data AuthMethod : Type 0 where
  auth_sql auth_windows : AuthMethod

unfoldable pub auth_method : Config → AuthMethod
unfolding text_eq
auth_method c = if text_eq c.auth (codes "windows") then auth_windows else auth_sql

abbrev pub is_windows : AuthMethod → Bool
is_windows auth_windows = true
is_windows auth_sql = false

pub data TlsMode : Type 0 where
  disable prefer require verify : TlsMode

unfoldable pub tls_mode : ⦃u : Unicode⦄ → Config → TlsMode
unfolding text_eq to_lower trim_space
tls_mode c =
    let m = to_lower (trim_space c.tls) in
    if text_eq m (codes "disable")
    then disable
    else if text_eq m (codes "prefer")
    then prefer
    else if text_eq m (codes "require")
    then require
    else if text_eq m (codes "verify")
    then verify
    else if is_nil m
    then (if is_sqlite c.engine then disable else require)
    else require

unfoldable pub connect_timeout : Config → ℕ
connect_timeout c =
    if exceeds c.connect_timeout_seconds 0 then to_nat c.connect_timeout_seconds else 15

-- strconv.Itoa
unfoldable pub itoa_signed : ℤ → Text
unfolding itoa
itoa_signed (pos n) = itoa n
itoa_signed (negsuc n) = b'-' ∷ itoa (Prim.Native.Nat.suc n)

unfoldable pub host_port : Config → Text
unfolding default_port join_host_port itoa_signed
host_port c =
    join_host_port c.host
      (itoa_signed (if is_zero c.port then pos (default_port c.engine) else c.port))

-- The messages of `Validate`.
pub data Problem : Type 0 where
  engine_required_with_raw file_required host_required port_range user_required : Problem
  database_required domain_required engine_required : Problem
  unknown_engine : Text → Problem

-- A problem if the test holds.
abbrev pub report : Bool → Problem → List Problem
report true p = p ∷ []
report false p = []

-- `strings.TrimSpace(s) == ""`
unfoldable pub is_blank : Text → Bool
unfolding trim_space
is_blank s = is_nil (trim_space s)

validate_network : Config → List Problem
unfolding is_blank contains auth_method
validate_network c =
    report (is_blank c.host) host_required
    ++ (report (is_negative c.port || exceeds c.port 65535) port_range
        ++ (report (is_blank c.user) user_required
            ++ (report (is_postgresql c.engine && is_blank c.database) database_required
                ++ report
                    (is_sqlserver c.engine
                      && is_windows (auth_method c)
                      && not (contains c.user (codes "\\")))
                    domain_required)))

validate_engine : Engine → Config → List Problem
unfolding validate_network
validate_engine sqlite c = report (is_blank c.file) file_required
validate_engine (other []) c = engine_required ∷ []
validate_engine (other (x ∷ name)) c = unknown_engine (x ∷ name) ∷ []
validate_engine _ c = validate_network c

-- `c.Engine == ""`
abbrev pub no_engine : Engine → Bool
no_engine (other []) = true
no_engine _ = false

unfoldable pub validate : Config → List Problem
unfolding validate_engine
validate c =
    if not (is_nil c.raw_dsn)
    then report (no_engine c.engine) engine_required_with_raw
    else validate_engine c.engine c

unfoldable pub for_enumeration : Config → Config
unfolding is_blank
for_enumeration c =
    if is_postgresql c.engine
    then (if is_blank c.database then record c { database = codes "postgres" } else c)
    else record c { database = [] }
