-- ===== src/Protocol/Dispatch.antt =====
-- core/dbcore/protocol.go: `dispatch`, on the registry, the servers and the catalogs that the
-- sessions cache, by their ids: an id is given to one session only.
use db_crawler.Complete.{Catalog, complete}
use db_crawler.Classify.{classify, is_read_only}
use db_crawler.Dsn.Build.{dsn}
use db_crawler.Dsn.Redact.{Reparse, redacted}
use db_crawler.Dsn.{Config, validate, for_enumeration}
use db_crawler.Engine.{is_sqlite, parse_engine, supports_schemas}
use db_crawler.Introspect.{preview_sql, count_sql}
use db_crawler.Prelude.{
  true, false, List, [], Option, none, some, ◌⊎◌, inl, inr, if◌then◌else◌, map,
}
use db_crawler.Protocol.{
  Op, Request, Code, Payload, Response, ok, fail, Cause, fail_from_error, execute_cause, Explorer,
  Call, describe_engines, or_default, other_error, no_session_error,
}
use db_crawler.Query.Execute.{ExecuteError, execute}
use db_crawler.Query.{Database, QueryOptions, Result}
use db_crawler.Session.{
  Manager, Session, OpenError, open_session, get, close, close_all, cancel, list_sessions, find,
  put,
}
use db_crawler.Split.{Statement, split_statements}
use db_crawler.Text.{Text, Unicode, codes, is_nil}
use db_crawler.Values.{Formats}

abbrev pub or_else {ℓ} : {A : Type ℓ} → Option A → A → A
or_else none x = x
or_else (some a) x = a

abbrev pub empty_catalog : Catalog
empty_catalog = record { tables = []; fetched = false; columns = []; schema = none }

-- A payload, or the code of the error.
abbrev pub reply {ℓ} : {A : Type ℓ} → (A → Payload) → A ⊎ Cause → Response
reply f (inl a) = ok (f a)
reply f (inr cause) = fail_from_error cause Code.query_failed

unfoldable pub open_failure : Call → OpenError → Response
open_failure call (OpenError.invalid problems) = fail_from_error other_error Code.connect_failed
open_failure call _ = fail_from_error call.open_cause Code.connect_failed

-- `m.Close` returns the error of the handle, if there was a session.
unfoldable pub close_reply : Option Session → Option Cause → Response
close_reply none error = ok Payload.closed_reply
close_reply (some s) none = ok Payload.closed_reply
close_reply (some s) (some cause) = fail_from_error cause Code.internal

-- The connection string in the reply, without the password; none where there are problems.
unfoldable pub shown_dsn : ⦃u : Unicode⦄ → Reparse → Config → Text
unfolding redacted
shown_dsn reparse cfg =
    if is_nil (validate cfg)
    then elim (dsn (redacted reparse cfg)) [ inl problems ↦ [] | inr t ↦ t ]
    else []

module _ ⦃u : Unicode⦄ {fmt : Formats} {Arg : Type 0} (d : Database fmt Arg)
    (x : Explorer d.St) where
  pub record Core : Type 0 where
    pub manager : Manager
    pub world : d.St
    pub catalogs : List (Text × Catalog)

  -- The rest of an operation, behind `m.Open`.
  unfoldable pub with_open :
      Core → Config → Call → (Core → Session → Core × Response) → Core × Response
  unfolding open_session open_failure
  with_open core cfg call f =
      let r = open_session core.manager cfg call.now call.dial in
      elim r.1 [
        | inl s ↦ f (record core { manager = r.0 }) s
        | inr e ↦ (record core { manager = r.0 }, open_failure call e)
      ]

  unfoldable pub with_config : Core → Option Config → (Config → Core × Response) → Core × Response
  with_config core none f = (core, fail Code.bad_request)
  with_config core (some cfg) f = f cfg

  -- m.Get and what follows when there is a session
  unfoldable pub found_session :
      Core → Option Session → (Session → Core × Response) → Core × Response
  found_session core none f = (core, fail_from_error no_session_error Code.no_session_code)
  found_session core (some s) f = f s

  unfoldable pub with_session : Core → Text → (Session → Core × Response) → Core × Response
  unfolding get found_session
  with_session core id f = found_session core (get core.manager id) f

  unfoldable pub told : Core → Session → Core × Response
  told opened s = (opened, ok (Payload.opened s.id s.engine s.config.read_only))

  -- What is done with the session that was opened: it is asked and closed again.
  unfoldable pub tested : Core → Core → Session → Core × Response
  unfolding close
  tested core opened s = (
    record opened { manager = close opened.manager s.id },
    ok (Payload.reachable (x.server_version core.world s)),
  )

  unfoldable pub listed : Core → Core → Session → Core × Response
  unfolding close
  listed core opened s = (
    record opened { manager = close opened.manager s.id },
    reply Payload.names_reply (x.databases core.world s),
  )

  unfoldable pub test_connection : Core → Call → Config → Core × Response
  unfolding with_open tested
  test_connection core call cfg = with_open core cfg call (tested core)

  unfoldable pub databases_for : Core → Call → Config → Core × Response
  unfolding with_open listed for_enumeration
  databases_for core call cfg =
      if is_sqlite cfg.engine
      then (core, ok (Payload.names_reply []))
      else with_open core (for_enumeration cfg) call (listed core)

  -- The session behind the call goes back to where it was.
  unfoldable pub executed :
      Core → Text → d.St × Session × (ExecuteError ⊎ List Result) → Core × Response
  unfolding put
  executed core id (w, s, r) = (
    record core {
      world = w;
      manager = record core.manager { sessions = put id s core.manager.sessions };
    },
    elim r [
      | inl e ↦ fail_from_error (execute_cause e) Code.query_failed
      | inr results ↦ ok (Payload.results_reply results)
    ],
  )

  unfoldable pub options_of : Request Arg → QueryOptions
  options_of req = record {
    max_rows = req.max_rows;
    timeout_seconds = req.timeout_seconds;
    op_id = req.op_id;
    stop_on_error = or_else req.stop_on_error true;
  }

  unfoldable pub run_in : Core → Call → Request Arg → Session → Core × Response
  unfolding executed options_of
  run_in core call req s =
      executed core req.session_id
        (execute d core.world s call.context req.sql req.args (options_of req))

  unfoldable pub execute_request : Core → Call → Request Arg → Core × Response
  unfolding with_session run_in
  execute_request core call req = with_session core req.session_id (run_in core call req)

  unfoldable pub complete_request : Core → Request Arg → Core × Response
  unfolding with_session complete find put
  complete_request core req = with_session core req.session_id (λ s.
      let r =
        complete s.engine (x.answers core.world s)
          (or_else (find req.session_id core.catalogs) empty_catalog) req.sql req.cursor in
      (
        record core { catalogs = put req.session_id r.0 core.catalogs },
        ok (Payload.completion_reply r.1),
      ))

  unfoldable pub split_request : Request Arg → Response
  unfolding split_statements classify is_read_only parse_engine or_default
  split_request req = elim (parse_engine (or_default req.engine (codes "postgres"))) [
    | none ↦ fail Code.validation
    | some e ↦
        (let statements = split_statements e req.sql in
          ok (
            Payload.split_reply statements (map (λ (st : Statement). classify st.text) statements)
              (map (λ (st : Statement). is_read_only st.text) statements)))
  ]

  unfoldable pub dispatch_to : Op → Core → Call → Request Arg → Core × Response
  unfolding with_config with_open with_session close close_all list_sessions cancel told close_reply
      shown_dsn
  dispatch_to Op.ping core call req = (core, ok Payload.pong)
  dispatch_to Op.engines core call req = (core, ok (Payload.engines_reply describe_engines))
  dispatch_to Op.validate_config core call req =
      with_config core req.config
        (λ cfg. (core, ok (Payload.validated (validate cfg) (shown_dsn call.reparse cfg))))
  dispatch_to Op.open_connection core call req =
      with_config core req.config (λ cfg. with_open core cfg call told)
  dispatch_to Op.test_connection core call req =
      with_config core req.config (test_connection core call)
  dispatch_to Op.databases_for core call req = with_config core req.config (databases_for core call)
  dispatch_to Op.close_connection core call req = (
    record core { manager = close core.manager req.session_id },
    close_reply (get core.manager req.session_id) call.close_error,
  )
  dispatch_to Op.close_all_connections core call req =
      (record core { manager = close_all core.manager }, ok Payload.closed_reply)
  dispatch_to Op.list_connections core call req =
      (core, ok (Payload.sessions_reply (list_sessions core.manager)))
  dispatch_to Op.cancel_op core call req = with_session core req.session_id (λ s.
      let r = cancel core.manager s req.op_id in
      (record core { manager = r.0 }, ok (Payload.cancelled_reply r.1)))
  dispatch_to Op.execute_op core call req = execute_request core call req
  dispatch_to Op.databases core call req = with_session core req.session_id (λ s. (
    core,
    reply
        (λ (names : List Text).
          Payload.databases_reply names (or_else (x.current_database core.world s) []))
        (x.databases core.world s),
  ))
  dispatch_to Op.schemas core call req = with_session core req.session_id (λ s. (
    core,
    reply (λ (names : List Text). Payload.schemas_reply names (supports_schemas s.engine))
        (x.schemas core.world s),
  ))
  dispatch_to Op.tables core call req =
      with_session core req.session_id
        (λ s. (core, reply Payload.tables_reply (x.objects core.world s req.schema)))
  dispatch_to Op.routine_definition core call req = with_session core req.session_id (λ s. (
    core,
    if is_nil req.table
        then fail Code.bad_request
        else reply Payload.definition_reply
            (x.routine_definition core.world s req.schema req.table req.kind),
  ))
  dispatch_to Op.complete_op core call req = complete_request core req
  dispatch_to Op.table core call req = with_session core req.session_id (λ s. (
    core,
    if is_nil req.table
        then fail Code.bad_request
        else reply Payload.table_reply (x.table core.world s req.schema req.table),
  ))
  dispatch_to Op.preview core call req = with_session core req.session_id (λ s. (
    core,
    ok (
        Payload.preview_reply (preview_sql s.engine req.schema req.table req.limit)
          (count_sql s.engine req.schema req.table)),
  ))
  dispatch_to Op.split core call req = (core, split_request req)
  dispatch_to (Op.unknown name) core call req = (core, fail Code.unknown_op)

  unfoldable pub dispatch : Core → Call → Request Arg → Core × Response
  unfolding dispatch_to complete_request split_request
  dispatch core call req = dispatch_to req.op core call req
