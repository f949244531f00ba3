-- ===== src/Protocol.antt =====
-- core/dbcore/protocol.go: the operations behind the single entry point. A request comes decoded,
-- and a reply is its payload or its error code; JSON, the texts of errors and the recovery from
-- panics are left out.
pub mod Dispatch
pub mod Invariant
pub mod Registered
pub mod Probes
pub mod Refusals
pub mod Runs
pub mod Marked
pub mod Secrets
use db_crawler.Complete.Rank.{Completion}
use db_crawler.Complete.{Answers, Catalog, complete}
use db_crawler.Classify.{StatementKind, classify, is_read_only}
use db_crawler.Dsn.Redact.{Reparse}
use db_crawler.Dsn.{Config, Problem, TlsMode, validate, for_enumeration, is_blank}
use db_crawler.Engine.{
  Engine, sqlserver, postgresql, mysql, sqlite, is_sqlite, parse_engine, engine_name,
  supports_schemas,
}
use db_crawler.Introspect.{TableInfo, TableDetail, preview_sql, count_sql}
use db_crawler.Prelude.Int.{ℤ}
use db_crawler.Prelude.{
  ℕ, Bool, true, false, List, [], ◌∷◌, Option, none, some, ◌⊎◌, inl, inr, if◌then◌else◌, map,
}
use db_crawler.Query.Execute.{ExecuteError, nothing_to_run, parameters_need_one_statement, execute}
use db_crawler.Query.{Database, QueryOptions, Result}
use db_crawler.Session.{
  Manager, Session, SessionInfo, Dial, OpenError, open_session, get, close, close_all, cancel,
  list_sessions, find, put,
}
use db_crawler.Split.{Statement, split_statements}
use db_crawler.Text.{Text, Unicode, codes, is_nil}
use db_crawler.Values.{Formats}

-- The Go type is a string; `unknown` holds any but these.
pub data Op : Type 0 where
  ping engines validate_config open_connection test_connection databases_for : Op
  close_connection close_all_connections list_connections cancel_op execute_op : Op
  databases schemas tables routine_definition complete_op table preview split : Op
  unknown : Text → Op

pub record Request (Arg : Type 0) : Type 0 where
  pub op : Op
  pub session_id : Text
  pub op_id : Text
  pub config : Option Config
  pub sql : Text
  pub args : List Arg
  pub schema : Text
  pub table : Text
  pub engine : Text
  pub cursor : ℤ
  pub kind : Text
  pub max_rows : ℤ
  pub timeout_seconds : ℤ
  pub stop_on_error : Option Bool
  pub limit : ℤ

pub data Code : Type 0 where
  bad_request no_session_code read_only_code validation connect_failed query_failed : Code
  internal cancelled_code unknown_op : Code

pub record EngineDescriptor : Type 0 where
  pub id : Engine
  pub label : Text
  pub default_port : ℕ
  pub uses_file : Bool
  pub uses_schemas : Bool
  pub tls_modes : List TlsMode

pub data Payload : Type 0 where
  pong closed_reply : Payload
  engines_reply : List EngineDescriptor → Payload
  validated : List Problem → Text → Payload
  opened : Text → Engine → Bool → Payload
  reachable : Text → Payload
  names_reply : List Text → Payload
  sessions_reply : List SessionInfo → Payload
  cancelled_reply : Bool → Payload
  results_reply : List Result → Payload
  databases_reply : List Text → Text → Payload
  schemas_reply : List Text → Bool → Payload
  tables_reply : List TableInfo → Payload
  definition_reply : Text → Payload
  completion_reply : Completion → Payload
  table_reply : TableDetail → Payload
  preview_reply : Text → Text → Payload
  split_reply : List Statement → List StatementKind → List Bool → Payload

pub data Response : Type 0 where
  ok : Payload → Response
  fail : Code → Response

-- Errors, by what `errors.Is` says of them.
pub data Cause : Type 0 where
  no_session_error read_only_error canceled_error other_error : Cause

unfoldable pub fail_from_error : Cause → Code → Response
fail_from_error no_session_error fallback = fail no_session_code
fail_from_error read_only_error fallback = fail read_only_code
fail_from_error canceled_error fallback = fail cancelled_code
fail_from_error other_error fallback = fail fallback

unfoldable pub execute_cause : ExecuteError → Cause
execute_cause nothing_to_run = other_error
execute_cause parameters_need_one_statement = other_error
execute_cause (ExecuteError.read_only word) = read_only_error

abbrev networked : List TlsMode
networked = TlsMode.disable ∷ TlsMode.prefer ∷ TlsMode.require ∷ TlsMode.verify ∷ []

unfoldable pub describe_engines : List EngineDescriptor
describe_engines =
    record {
      id = sqlserver;
      label = codes "SQL Server / Azure SQL";
      default_port = 1433;
      uses_file = false;
      uses_schemas = true;
      tls_modes = networked;
    }
    ∷ record {
      id = postgresql;
      label = codes "PostgreSQL";
      default_port = 5432;
      uses_file = false;
      uses_schemas = true;
      tls_modes = networked;
    }
    ∷ record {
      id = mysql;
      label = codes "MySQL / MariaDB";
      default_port = 3306;
      uses_file = false;
      uses_schemas = false;
      tls_modes = networked;
    }
    ∷ record {
      id = sqlite;
      label = codes "SQLite";
      default_port = 0;
      uses_file = true;
      uses_schemas = false;
      tls_modes = [];
    }
    ∷ []

unfoldable pub or_default : Text → Text → Text
unfolding is_blank
or_default v fallback = if is_blank v then fallback else v

-- What the catalog queries of a session come to, on a state of the servers.
pub record Explorer (World : Type 0) : Type 0 where
  pub databases : World → Session → List Text ⊎ Cause
  pub current_database : World → Session → Option Text
  pub schemas : World → Session → List Text ⊎ Cause
  pub objects : World → Session → Text → List TableInfo ⊎ Cause
  pub routine_definition : World → Session → Text → Text → Text → Text ⊎ Cause
  pub table : World → Session → Text → Text → TableDetail ⊎ Cause
  pub server_version : World → Session → Text
  pub answers : World → Session → Answers

-- The clock, what dialling comes to, why it fails, the error of closing a handle, what net/url
-- makes of a raw connection string, and the context of the call.
pub record Call : Type 0 where
  pub now : ℕ
  pub dial : Dial
  pub open_cause : Cause
  pub close_error : Option Cause
  pub reparse : Reparse
  pub context : ℕ
