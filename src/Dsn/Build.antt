-- ===== src/Dsn/Build.antt =====
-- core/dbcore/dsn.go: the connection string of each driver.
use db_crawler.Dsn.{
  Config, Problem, TlsMode, disable, prefer, require, verify, auth_method, is_windows, tls_mode,
  connect_timeout, host_port, validate,
}
use db_crawler.Engine.{Engine, sqlserver, postgresql, mysql, sqlite, other}
use db_crawler.Prelude.{not, List, [], ◌∷◌, ◌++◌, if◌then◌else◌, ◌⊎◌, inl, inr}
use db_crawler.Text.Url.{
  Values, values_set, values_add, values_encode, query_escape, url_string, text_lt,
}
use db_crawler.Text.{Text, Unicode, codes, is_nil, itoa}

insert_param : Text × Text → List (Text × Text) → List (Text × Text)
insert_param e [] = e ∷ []
insert_param e (f ∷ q) = if text_lt f.0 e.0 then f ∷ insert_param e q else e ∷ f ∷ q

-- The entries of the map in the order of their keys.
unfoldable pub sorted_params : List (Text × Text) → List (Text × Text)
unfolding insert_param text_lt
sorted_params [] = []
sorted_params (e ∷ q) = insert_param e (sorted_params q)

-- `for _, kv := range c.sortedParams() { q.Set(kv[0], kv[1]) }`
set_all : List (Text × Text) → Values → Values
unfolding values_set
set_all [] q = q
set_all ((k, v) ∷ rest) q = set_all rest (values_set k v q)

add_all : List (Text × Text) → Values → Values
unfolding values_add
add_all [] q = q
add_all ((k, v) ∷ rest) q = add_all rest (values_add k v q)

sqlserver_tls : TlsMode → Values → Values
sqlserver_tls disable q = values_set (codes "encrypt") (codes "disable") q
sqlserver_tls prefer q = values_set (codes "encrypt") (codes "false") q
sqlserver_tls require q =
    values_set (codes "TrustServerCertificate") (codes "true")
      (values_set (codes "encrypt") (codes "true") q)
sqlserver_tls verify q =
    values_set (codes "TrustServerCertificate") (codes "false")
      (values_set (codes "encrypt") (codes "true") q)

postgres_tls : TlsMode → Text
postgres_tls disable = codes "disable"
postgres_tls prefer = codes "prefer"
postgres_tls require = codes "require"
postgres_tls verify = codes "verify-full"

mysql_tls : TlsMode → Text
mysql_tls disable = codes "false"
mysql_tls prefer = codes "preferred"
mysql_tls require = codes "skip-verify"
mysql_tls verify = codes "true"

module _ ⦃u : Unicode⦄ where
  unfoldable pub sqlserver_values : Config → Values
  unfolding sqlserver_tls set_all tls_mode auth_method connect_timeout sorted_params
  sqlserver_values c =
      let db : Values =
        if is_nil c.database then [] else values_set (codes "database") c.database [] in
      let auth =
        if is_windows (auth_method c)
        then values_set (codes "authenticator") (codes "ntlm") db
        else db in
      let timed = values_set (codes "connection timeout") (itoa (connect_timeout c)) auth in
      set_all (sorted_params c.params) (sqlserver_tls (tls_mode c) timed)

  unfoldable pub sqlserver_dsn : Config → Text
  unfolding sqlserver_values url_string host_port values_encode
  sqlserver_dsn c =
      url_string (codes "sqlserver") c.user c.password (host_port c) []
        (values_encode (sqlserver_values c))

  unfoldable pub postgres_values : Config → Values
  unfolding postgres_tls set_all tls_mode connect_timeout sorted_params
  postgres_values c = set_all (sorted_params c.params) (
      values_set (codes "connect_timeout") (itoa (connect_timeout c))
        (values_set (codes "sslmode") (postgres_tls (tls_mode c)) []))

  unfoldable pub postgres_dsn : Config → Text
  unfolding postgres_values url_string host_port values_encode
  postgres_dsn c =
      url_string (codes "postgres") c.user c.password (host_port c) (b'/' ∷ c.database)
        (values_encode (postgres_values c))

  unfoldable pub mysql_values : Config → Values
  unfolding mysql_tls set_all tls_mode connect_timeout sorted_params
  mysql_values c = set_all (sorted_params c.params) (
      values_set (codes "tls") (mysql_tls (tls_mode c)) (
        values_set (codes "timeout") (itoa (connect_timeout c) ++ codes "s") (
          values_set (codes "loc") (codes "UTC")
            (values_set (codes "parseTime") (codes "true") []))))

  unfoldable pub mysql_dsn : Config → Text
  unfolding mysql_values query_escape host_port values_encode
  mysql_dsn c =
      let auth =
        query_escape c.user ++ (if is_nil c.password then [] else b':' ∷ query_escape c.password) in
      auth
      ++ (codes "@tcp("
          ++ (host_port c
              ++ (codes ")/" ++ (c.database ++ (b'?' ∷ values_encode (mysql_values c))))))

  sqlite_values : Config → Values
  unfolding add_all sorted_params values_set
  sqlite_values c =
      let q = values_set (codes "_pragma") (codes "busy_timeout(5000)") [] in
      add_all (sorted_params c.params)
        (if c.read_only then values_set (codes "mode") (codes "ro") q else q)

  unfoldable pub sqlite_dsn : Config → Text
  unfolding sqlite_values values_encode
  sqlite_dsn c = codes "file:" ++ (c.file ++ (b'?' ∷ values_encode (sqlite_values c)))

  unfoldable pub engine_dsn : Engine → Config → List Problem ⊎ Text
  engine_dsn sqlserver c = inr (sqlserver_dsn c)
  engine_dsn postgresql c = inr (postgres_dsn c)
  engine_dsn mysql c = inr (mysql_dsn c)
  engine_dsn sqlite c = inr (sqlite_dsn c)
  engine_dsn (other name) c = inl (Problem.unknown_engine name ∷ [])

  -- The problems, joined in the source, or the connection string.
  unfoldable pub dsn : Config → List Problem ⊎ Text
  unfolding validate engine_dsn
  dsn c =
      if not (is_nil (validate c))
      then inl (validate c)
      else if not (is_nil c.raw_dsn)
      then inr c.raw_dsn
      else engine_dsn c.engine c
