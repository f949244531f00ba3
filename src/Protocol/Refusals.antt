-- ===== src/Protocol/Refusals.antt =====
-- core/dbcore/protocol.go: requests for a session that is not open touch nothing, and a refused
-- buffer reaches no server.
use db_crawler.Prelude.{◌≡◌, refl, ap, subst, sym, ◌∙◌, true, List, [], Option, none, some, ◌⊎◌}
use db_crawler.Protocol.Dispatch.{
  Core, found_session, with_session, executed, execute_request, complete_request, dispatch_to,
  dispatch, run_in, options_of,
}
use db_crawler.Protocol.{
  Op, Request, Code, Response, Explorer, Call, fail, fail_from_error, execute_cause,
}
use db_crawler.Query.Execute.Reports.{HasWrite, first_write, execute_refused}
use db_crawler.Query.Execute.{execute, ExecuteError, read_only}
use db_crawler.Query.{Database, Result}
use db_crawler.Session.{Session, get}
use db_crawler.Split.{split_statements}
use db_crawler.Text.{Text, Unicode}
use db_crawler.Values.{Formats}

-- The operations that ask for a session first.
abbrev pub NeedsSession : Op → Type 0
NeedsSession Op.cancel_op = Unit
NeedsSession Op.execute_op = Unit
NeedsSession Op.databases = Unit
NeedsSession Op.schemas = Unit
NeedsSession Op.tables = Unit
NeedsSession Op.routine_definition = Unit
NeedsSession Op.complete_op = Unit
NeedsSession Op.table = Unit
NeedsSession Op.preview = Unit
NeedsSession _ = ⊥

module _ ⦃u : Unicode⦄ {fmt : Formats} {Arg : Type 0} (d : Database fmt Arg)
    (x : Explorer d.St) where
  absent :
      (core : Core d x) (id : Text) (f : Session → Core d x × Response)
      → get core.manager id ≡ none
      → with_session d x core id f ≡ (core, fail Code.no_session_code)
  unfolding with_session found_session fail_from_error
  absent core id f e = ap (λ (o : Option Session). found_session d x core o f) e

  absent_op :
      (op : Op) (core : Core d x) (call : Call) (req : Request Arg)
      → NeedsSession op
      → get core.manager req.session_id ≡ none
      → dispatch_to d x op core call req ≡ (core, fail Code.no_session_code)
  unfolding dispatch_to execute_request complete_request
  absent_op Op.ping core call req n e = absurd n
  absent_op Op.engines core call req n e = absurd n
  absent_op Op.validate_config core call req n e = absurd n
  absent_op Op.open_connection core call req n e = absurd n
  absent_op Op.test_connection core call req n e = absurd n
  absent_op Op.databases_for core call req n e = absurd n
  absent_op Op.close_connection core call req n e = absurd n
  absent_op Op.close_all_connections core call req n e = absurd n
  absent_op Op.list_connections core call req n e = absurd n
  absent_op Op.cancel_op core call req n e = absent core req.session_id _ e
  absent_op Op.execute_op core call req n e = absent core req.session_id _ e
  absent_op Op.databases core call req n e = absent core req.session_id _ e
  absent_op Op.schemas core call req n e = absent core req.session_id _ e
  absent_op Op.tables core call req n e = absent core req.session_id _ e
  absent_op Op.routine_definition core call req n e = absent core req.session_id _ e
  absent_op Op.complete_op core call req n e = absent core req.session_id _ e
  absent_op Op.table core call req n e = absent core req.session_id _ e
  absent_op Op.preview core call req n e = absent core req.session_id _ e
  absent_op Op.split core call req n e = absurd n
  absent_op (Op.unknown name) core call req n e = absurd n

  -- A request of an operation that works on a session (cancel, execute, databases, schemas,
  -- tables, routineDefinition, complete, table, previewSql) for an id that is not registered
  -- is answered with no_session, and neither the registry nor the servers nor the catalogs
  -- change.
  pub dispatch_no_session :
      (core : Core d x) (call : Call) (req : Request Arg)
      → NeedsSession req.op
      → get core.manager req.session_id ≡ none
      → dispatch d x core call req ≡ (core, fail Code.no_session_code)
  unfolding dispatch
  dispatch_no_session core call req n e = absent_op req.op core call req n e

  refused :
      (core : Core d x) (call : Call) (req : Request Arg) (s : Session)
      → s.config.read_only ≡ true
      → req.args ≡ []
      → HasWrite (split_statements s.engine req.sql)
      → ((run_in d x core call req s).0.world ≡ core.world)
        × ((run_in d x core call req s).1 ≡ fail Code.read_only_code)
  unfolding run_in executed fail_from_error execute_cause
  refused core call req s h a w =
      subst
        (λ (r : d.St × Session × (ExecuteError ⊎ List Result)).
          ((executed d x core req.session_id r).0.world ≡ core.world)
          × ((executed d x core req.session_id r).1 ≡ fail Code.read_only_code))
        (sym (
          ap
            (λ (args : List Arg).
              execute d core.world s call.context req.sql args (options_of d x req))
            a
          ∙ execute_refused d core.world s call.context req.sql (options_of d x req) h w))
        (refl, code)
    where
      code :
          fail_from_error
            (execute_cause (read_only (first_write (split_statements s.engine req.sql))))
            Code.query_failed
          ≡ fail Code.read_only_code
      code = refl

  -- An execute request without arguments for a session marked read-only, with a buffer that
  -- holds a statement that IsReadOnly rejects, is answered with the code for read-only
  -- connections, and the servers' state is as it was.
  pub dispatch_read_only :
      (core : Core d x) (call : Call) (req : Request Arg) {s : Session}
      → req.op ≡ Op.execute_op
      → get core.manager req.session_id ≡ some s
      → s.config.read_only ≡ true
      → req.args ≡ []
      → HasWrite (split_statements s.engine req.sql)
      → ((dispatch d x core call req).0.world ≡ core.world)
        × ((dispatch d x core call req).1 ≡ fail Code.read_only_code)
  unfolding dispatch dispatch_to execute_request with_session found_session
  dispatch_read_only core call req {s} o g h a w =
      subst
        (λ (op : Op).
          ((dispatch_to d x op core call req).0.world ≡ core.world)
          × ((dispatch_to d x op core call req).1 ≡ fail Code.read_only_code))
        (sym o)
        (subst
          (λ (p : Option Session).
            ((found_session d x core p (run_in d x core call req)).0.world ≡ core.world)
            × ((found_session d x core p (run_in d x core call req)).1 ≡ fail Code.read_only_code))
          (sym g) (refused core call req s h a w))
