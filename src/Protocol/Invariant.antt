-- ===== src/Protocol/Invariant.antt =====
-- core/dbcore/protocol.go: how a property of the registry is carried through any request.
use db_crawler.Dsn.{Config, for_enumeration}
use db_crawler.Engine.{is_sqlite}
use db_crawler.Prelude.{ℕ, ◌≡◌, refl, List, [], Option, none, some, ◌⊎◌, inl, inr, if_rule}
use db_crawler.Protocol.Dispatch.{
  Core, with_open, with_config, found_session, with_session, test_connection, databases_for,
  executed, execute_request, complete_request, dispatch_to, dispatch, open_failure, tested, listed,
  told, run_in, options_of, told, run_in, options_of,
}
use db_crawler.Protocol.{Op, Request, Response, Payload, Explorer, Call, ok}
use db_crawler.Query.Execute.{execute, ExecuteError}
use db_crawler.Query.Execute.Tracking.{SameSession, execute_same}
use db_crawler.Query.{Database, Result}
use db_crawler.Session.{
  Manager, Session, OpenError, open_session, get, find, put, close, close_all, cancel, Dial,
}
use db_crawler.Text.{Text, Unicode}
use db_crawler.Values.{Formats}

-- A property of registries that holds behind opening from one registry, and that everything else
-- keeps: what holds behind a request.
pub record Inductive ⦃u : Unicode⦄ (Q : Manager → Type 0) (m : Manager) : Type 0 where
  pub start : Q m
  pub opens : (cfg : Config) (now : ℕ) (dial : Dial) → Q (open_session m cfg now dial).0
  pub closes : (n : Manager) (id : Text) → Q n → Q (close n id)
  pub closes_all : (n : Manager) → Q n → Q (close_all n)
  pub cancels : (n : Manager) (s : Session) (op : Text) → Q n → Q (cancel n s op).0
  pub puts :
      (n : Manager) (id : Text) (s w : Session)
      → w.id ≡ s.id
      → w.db ≡ s.db
      → find id n.sessions ≡ some s
      → Q n
      → Q (record n { sessions = put id w n.sessions })

module _ ⦃u : Unicode⦄ {fmt : Formats} {Arg : Type 0} (d : Database fmt Arg) (x : Explorer d.St)
    (Q : Manager → Type 0) where
  -- The registry behind an operation has the property.
  abbrev Kept : Core d x × Response → Type 0
  Kept r = Q r.0.manager

  with_config-Kept :
      (core : Core d x) (o : Option Config) (f : Config → Core d x × Response)
      → Inductive Q core.manager
      → ((cfg : Config) → Kept (f cfg))
      → Kept (with_config d x core o f)
  unfolding with_config
  with_config-Kept core none f r k = r.start
  with_config-Kept core (some cfg) f r k = k cfg

  with_session-Kept :
      (core : Core d x) (id : Text) (f : Session → Core d x × Response)
      → Inductive Q core.manager
      → ((s : Session) → get core.manager id ≡ some s → Kept (f s))
      → Kept (with_session d x core id f)
  unfolding with_session found_session
  with_session-Kept core id f r k = go (get core.manager id) refl
    where
      go : (o : Option Session) → get core.manager id ≡ o → Kept (found_session d x core o f)
      go none e = r.start
      go (some s) e = k s e

  with_open-Kept :
      (core : Core d x) (cfg : Config) (call : Call) (f : Core d x → Session → Core d x × Response)
      → Inductive Q core.manager
      → ((opened : Core d x) (s : Session) → Q opened.manager → Kept (f opened s))
      → Kept (with_open d x core cfg call f)
  unfolding with_open
  with_open-Kept core cfg call f r k =
      go (open_session core.manager cfg call.now call.dial) (r.opens cfg call.now call.dial)
    where
      go :
          (o : Manager × (Session ⊎ OpenError))
          → Q o.0
          → Kept (elim o.1 as (λ _. Core d x × Response) [
            | inl s ↦ f (record core { manager = o.0 }) s
            | inr e ↦ (record core { manager = o.0 }, open_failure call e)
          ])
      go (m, inl s) q = k (record core { manager = m }) s q
      go (m, inr e) q = q

  listed-Kept :
      (core opened : Core d x) (s : Session)
      → Inductive Q core.manager
      → Q opened.manager
      → Kept (listed d x core opened s)
  unfolding listed
  listed-Kept core opened s r q = r.closes opened.manager s.id q

  tested-Kept :
      (core opened : Core d x) (s : Session)
      → Inductive Q core.manager
      → Q opened.manager
      → Kept (tested d x core opened s)
  unfolding tested
  tested-Kept core opened s r q = r.closes opened.manager s.id q

  databases_for-Kept :
      (core : Core d x) (call : Call) (cfg : Config)
      → Inductive Q core.manager
      → Kept (databases_for d x core call cfg)
  unfolding databases_for
  databases_for-Kept core call cfg r =
      if_rule Kept (is_sqlite cfg.engine) {x = (core, ok (Payload.names_reply []))}
        {y = with_open d x core (for_enumeration cfg) call (listed d x core)} r.start
        (with_open-Kept core (for_enumeration cfg) call (listed d x core) r
          (λ opened s q. listed-Kept core opened s r q))

  executed-Kept :
      (core : Core d x) (id : Text) (s : Session)
      (r : d.St × Session × (ExecuteError ⊎ List Result))
      → Inductive Q core.manager
      → get core.manager id ≡ some s
      → SameSession d s r
      → Kept (executed d x core id r)
  unfolding executed get
  executed-Kept core id s (w, t, o) q e same = q.puts core.manager id s t same.0 same.1 e q.start

  run_in-Kept :
      (core : Core d x) (call : Call) (req : Request Arg)
      → Inductive Q core.manager
      → (s : Session) → get core.manager req.session_id ≡ some s
      → Kept (run_in d x core call req s)
  unfolding run_in
  run_in-Kept core call req r s e =
      executed-Kept core req.session_id s
        (execute d core.world s call.context req.sql req.args (options_of d x req)) r e
        (execute_same d core.world s call.context req.sql req.args (options_of d x req))

  told-Kept : (opened : Core d x) (s : Session) → Q opened.manager → Kept (told d x opened s)
  unfolding told
  told-Kept opened s q = q

  kept :
      (op : Op) (core : Core d x) (call : Call) (req : Request Arg)
      → Inductive Q core.manager
      → Kept (dispatch_to d x op core call req)
  unfolding dispatch_to test_connection execute_request complete_request
  kept Op.ping core call req r = r.start
  kept Op.engines core call req r = r.start
  kept Op.validate_config core call req r = with_config-Kept core req.config _ r (λ cfg. r.start)
  kept Op.open_connection core call req r =
      with_config-Kept core req.config _ r
        (λ cfg. with_open-Kept core cfg call (told d x) r told-Kept)
  kept Op.test_connection core call req r = with_config-Kept core req.config _ r (λ cfg.
      with_open-Kept core cfg call (tested d x core) r
        (λ opened s q. tested-Kept core opened s r q))
  kept Op.databases_for core call req r =
      with_config-Kept core req.config _ r (λ cfg. databases_for-Kept core call cfg r)
  kept Op.close_connection core call req r = r.closes core.manager req.session_id r.start
  kept Op.close_all_connections core call req r = r.closes_all core.manager r.start
  kept Op.list_connections core call req r = r.start
  kept Op.cancel_op core call req r =
      with_session-Kept core req.session_id _ r (λ s e. r.cancels core.manager s req.op_id r.start)
  kept Op.execute_op core call req r =
      with_session-Kept core req.session_id (run_in d x core call req) r
        (run_in-Kept core call req r)
  kept Op.databases core call req r = with_session-Kept core req.session_id _ r (λ s e. r.start)
  kept Op.schemas core call req r = with_session-Kept core req.session_id _ r (λ s e. r.start)
  kept Op.tables core call req r = with_session-Kept core req.session_id _ r (λ s e. r.start)
  kept Op.routine_definition core call req r =
      with_session-Kept core req.session_id _ r (λ s e. r.start)
  kept Op.complete_op core call req r = with_session-Kept core req.session_id _ r (λ s e. r.start)
  kept Op.table core call req r = with_session-Kept core req.session_id _ r (λ s e. r.start)
  kept Op.preview core call req r = with_session-Kept core req.session_id _ r (λ s e. r.start)
  kept Op.split core call req r = r.start
  kept (Op.unknown name) core call req r = r.start

  -- What is inductive from the registry before a request holds behind it.
  pub dispatch-Inductive :
      (core : Core d x) (call : Call) (req : Request Arg)
      → Inductive Q core.manager
      → Q (dispatch d x core call req).0.manager
  unfolding dispatch
  dispatch-Inductive core call req r = kept req.op core call req r
