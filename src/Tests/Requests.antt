-- ===== src/Tests/Requests.antt =====
-- The theorems on requests, at a core with one session that is read-only.
use db_crawler.Prelude.Int.{pos}
use db_crawler.Prelude.{ℕ, ◌≡◌, refl, [], List, ◌∷◌, some, none, inl, inr, arith}
use db_crawler.Protocol.Dispatch.{Core, dispatch}
use db_crawler.Protocol.Probes.{Restores, dispatch-Restores}
use db_crawler.Protocol.Refusals.{dispatch_no_session, dispatch_read_only}
use db_crawler.Protocol.Registered.{dispatch-Registry}
use db_crawler.Protocol.Secrets.{dispatch_hides}
use db_crawler.Dsn.Passwords.{with_password}
use db_crawler.Protocol.Runs.{run, started, run_lem}
use db_crawler.Protocol.{Op, Request, Code, Call, Cause, Explorer, fail}
use db_crawler.Session.Registry.{Registry}
use db_crawler.Session.{Dial, get, find, close_all}
use db_crawler.Tests.Base.{plain, config, server, session}
use db_crawler.Tests.Execution.{has_write}
use db_crawler.Tests.Sessions.{one_open, one_open-Registry}
use db_crawler.Text.{codes}

abbrev pub explorer : Explorer ℕ
explorer = record {
  databases = λ n s. inl (codes "db" ∷ []);
  current_database = λ n s. none;
  schemas = λ n s. inl [];
  objects = λ n s schema. inl [];
  routine_definition = λ n s schema name kind. inr Cause.other_error;
  table = λ n s schema name. inr Cause.other_error;
  server_version = λ n s. codes "16";
  answers =
      λ n s. record { objects = λ schema. none; columns = λ schema table. none; schemas = none };
}

abbrev core : Core server explorer
core = record { manager = one_open; world = 3; catalogs = [] }

abbrev pub call : Call
call = record {
  now = 8;
  dial = Dial.reached;
  open_cause = Cause.other_error;
  close_error = none;
  reparse = λ t. none;
  context = 4;
}

abbrev pub request : Op → Request Unit
request op = record {
  op = op;
  session_id = codes "conn-1";
  op_id = codes "op-1";
  config = some config;
  sql = codes "A;";
  args = [];
  schema = [];
  table = [];
  engine = [];
  cursor = pos 0;
  kind = [];
  max_rows = pos 0;
  timeout_seconds = pos 0;
  stop_on_error = none;
  limit = pos 0;
}

dispatch-Registry_example :
    Registry (dispatch server explorer core call (request Op.open_connection)).0.manager
dispatch-Registry_example =
    dispatch-Registry server explorer core call (request Op.open_connection) (omega arith)
      one_open-Registry

dispatch-Restores_example :
    Restores server explorer one_open
      (dispatch server explorer core call (request Op.test_connection))
dispatch-Restores_example =
    dispatch-Restores server explorer core call (request Op.test_connection) (inl refl)
      (omega arith) one_open-Registry

dispatch_no_session_example :
    dispatch server explorer core call (record (request Op.execute_op) { session_id = codes "x" })
    ≡ (core, fail Code.no_session_code)
unfolding get find
dispatch_no_session_example =
    dispatch_no_session server explorer core call
      (record (request Op.execute_op) { session_id = codes "x" }) tt refl

dispatch_read_only_example :
    ((dispatch server explorer core call (request Op.execute_op)).0.world ≡ 3)
    × ((dispatch server explorer core call (request Op.execute_op)).1 ≡ fail Code.read_only_code)
unfolding get find
dispatch_read_only_example =
    dispatch_read_only server explorer core call (request Op.execute_op) {s = session} refl refl
      refl refl has_write

-- Two sessions are opened, one of them is closed, and what is left is asked for.
abbrev requests : List (Call × Request Unit)
requests =
    (call, request Op.open_connection)
    ∷ (call, request Op.open_connection)
    ∷ (call, request Op.close_connection)
    ∷ (call, request Op.list_connections)
    ∷ []

run_lem_example :
    Registry (run server explorer (started server explorer 3) requests).manager
    × ((close_all (run server explorer (started server explorer 3) requests).manager).sessions ≡ [])
    × ((close_all (run server explorer (started server explorer 3) requests).manager).handles ≡ [])
run_lem_example = run_lem server explorer 3 requests (omega arith)

dispatch_hides_example :
    dispatch server explorer core call (record (request Op.list_connections) {
      op = Op.validate_config;
      config = some (with_password config (codes "secret"));
    })
    ≡ dispatch server explorer core call (record (request Op.list_connections) {
      op = Op.validate_config;
      config = some (with_password config (codes "hunter2"));
    })
dispatch_hides_example =
    dispatch_hides server explorer core call (request Op.list_connections) config (codes "secret")
      (codes "hunter2") refl refl
