-- ===== src/Protocol/Marked.antt =====
-- core/dbcore/protocol.go: requests that connect with a read-only mark only, against the state of
-- the servers.
use db_crawler.Dsn.{Config, for_enumeration}
use db_crawler.Engine.{is_sqlite}
use db_crawler.Prelude.{
  ◌≡◌, refl, ap, ◌∙◌, true, List, [], ◌∷◌, Option, none, some, ◌⊎◌, inl, inr, if_rule, All, arith,
}
use db_crawler.Protocol.Dispatch.{
  Core, with_open, with_config, with_session, found_session, tested, listed, databases_for, told,
  executed, execute_request, complete_request, run_in, options_of, dispatch_to, dispatch,
  open_failure, test_connection,
}
use db_crawler.Protocol.Runs.{run}
use db_crawler.Protocol.{Op, Request, Payload, Response, Explorer, Call, ok}
use db_crawler.Query.Execute.Safety.{KeptByReads, execute-keeps}
use db_crawler.Query.Execute.Tracking.{SameSession, execute_same}
use db_crawler.Query.Execute.{ExecuteError, execute}
use db_crawler.Query.{Database, Result}
use db_crawler.Session.Entries.{
  IsMarked, AllMarked, All-find, All-put, open_session-AllMarked, close-AllMarked,
  close_all-AllMarked, cancel-AllMarked,
}
use db_crawler.Session.{Session, Manager, OpenError, open_session, get}
use db_crawler.Text.{Text, Unicode}
use db_crawler.Values.{Formats}

-- The configuration of a request, if it has one, is marked read-only.
abbrev pub MarkedConfig : Option Config → Type 0
MarkedConfig none = Unit
MarkedConfig (some cfg) = cfg.read_only ≡ true

for_enumeration_mark :
    (cfg : Config) → cfg.read_only ≡ true → (for_enumeration cfg).read_only ≡ true
unfolding for_enumeration
for_enumeration_mark cfg h = ground arith

module _ ⦃u : Unicode⦄ {fmt : Formats} {Arg : Type 0} (d : Database fmt Arg) (x : Explorer d.St)
    (P : d.St → Type 0) (keep : KeptByReads d P) where
  -- Only marked sessions, and servers with the property.
  abbrev pub IsSafe : Core d x → Type 0
  IsSafe core = AllMarked core.manager × P core.world

  abbrev Kept : Core d x × Response → Type 0
  Kept r = IsSafe r.0

  config-Kept :
      (core : Core d x) (o : Option Config) (f : Config → Core d x × Response)
      → MarkedConfig o
      → IsSafe core
      → ((cfg : Config) → cfg.read_only ≡ true → Kept (f cfg))
      → Kept (with_config d x core o f)
  unfolding with_config
  config-Kept core none f h q k = q
  config-Kept core (some cfg) f h q k = k cfg h

  session-Kept :
      (core : Core d x) (id : Text) (f : Session → Core d x × Response)
      → IsSafe core
      → ((s : Session) → IsMarked s → Kept (f s))
      → Kept (with_session d x core id f)
  unfolding with_session found_session get
  session-Kept core id f q k = go (get core.manager id) refl
    where
      go : (o : Option Session) → get core.manager id ≡ o → Kept (found_session d x core o f)
      go none e = q
      go (some s) e = k s (All-find IsMarked id core.manager.sessions s e q.0)

  open-Kept :
      (core : Core d x) (cfg : Config) (call : Call) (f : Core d x → Session → Core d x × Response)
      → cfg.read_only ≡ true
      → IsSafe core
      → ((opened : Core d x) (s : Session) → IsSafe opened → Kept (f opened s))
      → Kept (with_open d x core cfg call f)
  unfolding with_open
  open-Kept core cfg call f h q k =
      go (open_session core.manager cfg call.now call.dial)
        (open_session-AllMarked core.manager cfg call.now call.dial h q.0)
    where
      go :
          (o : Manager × (Session ⊎ OpenError))
          → AllMarked o.0
          → Kept (elim o.1 as (λ _. Core d x × Response) [
            | inl s ↦ f (record core { manager = o.0 }) s
            | inr e ↦ (record core { manager = o.0 }, open_failure call e)
          ])
      go (m, inl s) a = k (record core { manager = m }) s (a, q.1)
      go (m, inr e) a = (a, q.1)

  told-Kept : (opened : Core d x) (s : Session) → IsSafe opened → Kept (told d x opened s)
  unfolding told
  told-Kept opened s q = q

  tested-Kept :
      (core opened : Core d x) (s : Session) → IsSafe opened → Kept (tested d x core opened s)
  unfolding tested
  tested-Kept core opened s q = (close-AllMarked opened.manager s.id q.0, q.1)

  listed-Kept :
      (core opened : Core d x) (s : Session) → IsSafe opened → Kept (listed d x core opened s)
  unfolding listed
  listed-Kept core opened s q = (close-AllMarked opened.manager s.id q.0, q.1)

  databases_for-Kept :
      (core : Core d x) (call : Call) (cfg : Config)
      → cfg.read_only ≡ true
      → IsSafe core
      → Kept (databases_for d x core call cfg)
  unfolding databases_for
  databases_for-Kept core call cfg h q =
      if_rule Kept (is_sqlite cfg.engine) {x = (core, ok (Payload.names_reply []))}
        {y = with_open d x core (for_enumeration cfg) call (listed d x core)} q
        (open-Kept core (for_enumeration cfg) call (listed d x core) (for_enumeration_mark cfg h) q
          (λ opened s p. listed-Kept core opened s p))

  executed-Kept :
      (core : Core d x) (id : Text) (s : Session)
      (r : d.St × Session × (ExecuteError ⊎ List Result))
      → IsMarked s
      → IsSafe core
      → SameSession d s r
      → P r.0
      → Kept (executed d x core id r)
  unfolding executed
  executed-Kept core id s (w, t, o) h q same p = (
    All-put (λ (e : Text × Session). IsMarked e.1) id t core.manager.sessions (ap_mark same.2 h)
        q.0,
    p,
  )
    where
      ap_mark : t.config ≡ s.config → IsMarked s → IsMarked t
      ap_mark e h = ap (λ (c : Config). c.read_only) e ∙ h

  run_in-Kept :
      (core : Core d x) (call : Call) (req : Request Arg)
      → IsSafe core
      → (s : Session) → IsMarked s
      → Kept (run_in d x core call req s)
  unfolding run_in
  run_in-Kept core call req q s h =
      executed-Kept core req.session_id s
        (execute d core.world s call.context req.sql req.args (options_of d x req)) h q
        (execute_same d core.world s call.context req.sql req.args (options_of d x req))
        (execute-keeps d P keep core.world s call.context req.sql req.args (options_of d x req) h
          q.1)

  kept :
      (op : Op) (core : Core d x) (call : Call) (req : Request Arg)
      → MarkedConfig req.config
      → IsSafe core
      → Kept (dispatch_to d x op core call req)
  unfolding dispatch_to test_connection execute_request complete_request
  kept Op.ping core call req h q = q
  kept Op.engines core call req h q = q
  kept Op.validate_config core call req h q = config-Kept core req.config _ h q (λ cfg m. q)
  kept Op.open_connection core call req h q =
      config-Kept core req.config _ h q (λ cfg m. open-Kept core cfg call (told d x) m q told-Kept)
  kept Op.test_connection core call req h q =
      config-Kept core req.config _ h q
        (λ cfg m. open-Kept core cfg call (tested d x core) m q (tested-Kept core))
  kept Op.databases_for core call req h q =
      config-Kept core req.config _ h q (λ cfg m. databases_for-Kept core call cfg m q)
  kept Op.close_connection core call req h q =
      (close-AllMarked core.manager req.session_id q.0, q.1)
  kept Op.close_all_connections core call req h q = (close_all-AllMarked core.manager, q.1)
  kept Op.list_connections core call req h q = q
  kept Op.cancel_op core call req h q =
      session-Kept core req.session_id _ q
        (λ s m. (cancel-AllMarked core.manager s req.op_id q.0, q.1))
  kept Op.execute_op core call req h q =
      session-Kept core req.session_id (run_in d x core call req) q (run_in-Kept core call req q)
  kept Op.databases core call req h q = session-Kept core req.session_id _ q (λ s m. q)
  kept Op.schemas core call req h q = session-Kept core req.session_id _ q (λ s m. q)
  kept Op.tables core call req h q = session-Kept core req.session_id _ q (λ s m. q)
  kept Op.routine_definition core call req h q = session-Kept core req.session_id _ q (λ s m. q)
  kept Op.complete_op core call req h q = session-Kept core req.session_id _ q (λ s m. q)
  kept Op.table core call req h q = session-Kept core req.session_id _ q (λ s m. q)
  kept Op.preview core call req h q = session-Kept core req.session_id _ q (λ s m. q)
  kept Op.split core call req h q = q
  kept (Op.unknown name) core call req h q = q

  pub dispatch-IsSafe :
      (core : Core d x) (call : Call) (req : Request Arg)
      → MarkedConfig req.config
      → IsSafe core
      → IsSafe (dispatch d x core call req).0
  unfolding dispatch
  dispatch-IsSafe core call req h q = kept req.op core call req h q

  -- The catalog operations are taken to change no state of a server, as Explorer has them.
  -- Where every session is marked read-only and every configuration in a request is too, a
  -- property of the servers' state that no statement accepted by IsReadOnly changes holds
  -- behind any sequence of requests if it held before, and every session is still marked: no
  -- operation of the protocol lifts the mark, and no statement of an execute request reaches a
  -- server past the guard.
  pub run-IsSafe :
      (rs : List (Call × Request Arg)) (core : Core d x)
      → All (λ (r : Call × Request Arg). MarkedConfig r.1.config) rs
      → IsSafe core
      → IsSafe (run d x core rs)
  unfolding run
  run-IsSafe [] core h q = q
  run-IsSafe ((call, req) ∷ rest) core h q =
      run-IsSafe rest (dispatch d x core call req).0 h.1 (dispatch-IsSafe core call req h.0 q)
