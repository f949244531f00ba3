-- ===== src/Command.antt =====
-- core/cmd/dbcrawler/main.go: the command around the dispatcher. What is printed is the list of the
-- replies; requests are passed on as values, since JSON gives back what it was given.
pub mod Closing
pub mod Marked
use db_crawler.Dsn.{Config}
use db_crawler.Engine.{Engine, sqlite, parse_engine}
use db_crawler.Prelude.Int.{ℤ, pos}
use db_crawler.Prelude.{
  ℕ, suc, ◌+◌, Bool, true, false, not, ◌&&◌, List, [], ◌∷◌, Option, none, some, ◌⊎◌, inl, inr,
  if◌then◌else◌,
}
use db_crawler.Protocol.Dispatch.{Core, dispatch}
use db_crawler.Protocol.{Op, Request, Code, Payload, Response, ok, fail, Explorer, Call}
use db_crawler.Query.{Database}
use db_crawler.Session.{close_all}
use db_crawler.Text.{Text, Unicode, codes, is_nil, trim_space}
use db_crawler.Values.{Formats}

pub record Flags : Type 0 where
  pub sqlite_path : Text
  pub dsn : Text
  pub engine : Text
  pub read_only : Bool
  pub run_sql : Text
  pub list_tables : Bool
  pub max_rows : ℤ

-- What `exitf` says.
pub data Exit : Type 0 where
  bad_engine no_connection reading_failed : Exit
  not_connected : Code → Exit

pub data Start : Type 0 where
  nothing : Start
  connect : Config → Start
  give_up : Exit → Start

-- dbcore.Config{ReadOnly: …} with an engine
abbrev pub config_with : Flags → Engine → Config
config_with f e = record {
  engine = e;
  host = [];
  port = pos 0;
  database = [];
  user = [];
  password = [];
  file = [];
  auth = [];
  tls = [];
  connect_timeout_seconds = pos 0;
  read_only = f.read_only;
  params = [];
  raw_dsn = [];
}

raw_start : Flags → Option Engine → Start
raw_start f none = give_up bad_engine
raw_start f (some e) = connect (record (config_with f e) { raw_dsn = f.dsn })

unfoldable pub start_of : ⦃u : Unicode⦄ → Flags → Start
unfolding raw_start parse_engine
start_of f =
    if is_nil f.sqlite_path && is_nil f.dsn
    then nothing
    else if not (is_nil f.sqlite_path)
    then connect (record (config_with f sqlite) { file = f.sqlite_path })
    else raw_start f (parse_engine f.engine)

-- A request with an operation and nothing else.
abbrev pub bare : {Arg : Type 0} → Op → Request Arg
bare op = record {
  op = op;
  session_id = [];
  op_id = [];
  config = none;
  sql = [];
  args = [];
  schema = [];
  table = [];
  engine = [];
  cursor = pos 0;
  kind = [];
  max_rows = pos 0;
  timeout_seconds = pos 0;
  stop_on_error = none;
  limit = pos 0;
}

-- The session's id in the reply, or the error.
unfoldable pub opened_id : Response → Text ⊎ Exit
opened_id (fail code) = inr (not_connected code)
opened_id (ok (Payload.opened id e read_only)) = inl id
opened_id (ok _) = inl []

module _ ⦃u : Unicode⦄ {fmt : Formats} {Arg : Type 0} (d : Database fmt Arg)
    (x : Explorer d.St) where
  pub record Outcome : Type 0 where
    pub core : Core d x
    pub replies : List Response
    pub exit : Option Exit

  -- A return of `main`, which closes all sessions.
  abbrev pub finished : Core d x → List Response → Outcome
  finished core replies = record {
    core = record core { manager = close_all core.manager };
    replies = replies;
    exit = none;
  }

  -- os.Exit, which runs nothing deferred.
  abbrev pub stopped : Core d x → List Response → Exit → Outcome
  stopped core replies e = record { core = core; replies = replies; exit = some e }

  -- `Handle` on a line, which may not decode.
  unfoldable pub answered : Core d x → Call → Option (Request Arg) → Core d x × Response
  answered core call none = (core, fail Code.bad_request)
  answered core call (some req) = dispatch d x core call req

  -- What json.Unmarshal makes of a line, and what each call finds outside.
  module _ (decode : Text → Option (Request Arg)) (calls : ℕ → Call) where
    -- The loop over the lines of stdin.
    unfoldable pub talk : ℕ → Core d x → List Text → Core d x × List Response
    unfolding answered
    talk n core [] = (core, [])
    talk n core (l ∷ ls) =
        let line = trim_space l in
        let skipped = talk n core ls in
        let r = answered core (calls n) (decode line) in
        let rest = talk (suc n) r.0 ls in if is_nil line then skipped else (rest.0, r.1 ∷ rest.1)

    -- A flag that needs the connection.
    unfoldable pub flagged : ℕ → Core d x → Text → Request Arg → Outcome
    flagged n core id req =
        let r = dispatch d x core (calls n) req in
        if is_nil id then stopped core [] no_connection else finished r.0 (r.1 ∷ [])

    ended : Bool → Core d x × List Response → Outcome
    ended true (core, replies) = stopped core replies reading_failed
    ended false (core, replies) = finished core replies

    -- The switch on the flags, with the id of the session that was opened.
    unfoldable pub act : Flags → List Text → Bool → ℕ → Core d x → Text → Outcome
    unfolding flagged ended talk
    act f lines failed n core id =
        if f.list_tables
        then flagged n core id (record (bare Op.tables) { session_id = id })
        else if not (is_nil f.run_sql)
        then flagged n core id (record (bare Op.execute_op) {
          session_id = id;
          sql = f.run_sql;
          max_rows = f.max_rows;
        })
        else ended failed (talk n core lines)

    -- Behind the reply to the request that connects.
    connected : Flags → List Text → Bool → Core d x → Text ⊎ Exit → Outcome
    unfolding act
    connected f lines failed core (inl id) = act f lines failed 1 core id
    connected f lines failed core (inr e) = stopped core [] e

    begun : Flags → List Text → Bool → Core d x → Start → Outcome
    unfolding connected opened_id act
    begun f lines failed core nothing = act f lines failed 0 core []
    begun f lines failed core (give_up e) = stopped core [] e
    begun f lines failed core (connect cfg) =
        let r =
          dispatch d x core (calls 0) (record (bare Op.open_connection) { config = some cfg }) in
        connected f lines failed r.0 (opened_id r.1)

    -- `main`, on the flags, the lines of stdin and whether reading them failed.
    unfoldable pub main : Flags → List Text → Bool → Core d x → Outcome
    unfolding begun start_of
    main f lines failed core = begun f lines failed core (start_of f)
