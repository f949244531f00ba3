-- ===== src/Protocol/Probes.antt =====
-- core/dbcore/protocol.go: requests that only look leave the registry as it was.
use db_crawler.Dsn.{Config, for_enumeration}
use db_crawler.Engine.{is_sqlite}
use db_crawler.Prelude.{
  ◌+◌, ◌^◌, ◌<◌, ◌≡◌, refl, ap, subst, sym, ◌∙◌, [], Option, none, some, ◌⊎◌, inl, inr, if_rule,
}
use db_crawler.Protocol.Dispatch.{
  Core, with_open, with_config, test_connection, databases_for, dispatch_to, dispatch, open_failure,
  tested, listed,
}
use db_crawler.Protocol.{Op, Request, Response, Payload, Explorer, Call, ok}
use db_crawler.Query.{Database}
use db_crawler.Session.Lifecycle.{Opens, open_session-Opens}
use db_crawler.Session.Registry.{Registry}
use db_crawler.Session.{Manager, Session, OpenError, open_session, close}
use db_crawler.Text.{Unicode}
use db_crawler.Values.{Formats}

module _ ⦃u : Unicode⦄ {fmt : Formats} {Arg : Type 0} (d : Database fmt Arg)
    (x : Explorer d.St) where
  -- The sessions and the open handles are as before.
  abbrev pub Restores : Manager → Core d x × Response → Type 0
  Restores m r = (r.0.manager.sessions ≡ m.sessions) × (r.0.manager.handles ≡ m.handles)

  with_open-Restores :
      (core : Core d x) (cfg : Config) (call : Call) (f : Core d x → Session → Core d x × Response)
      → core.manager.seq + 1 < 2 ^ 64
      → Registry core.manager
      → ((opened : Core d x) (s : Session) → (f opened s).0.manager ≡ close opened.manager s.id)
      → Restores core.manager (with_open d x core cfg call f)
  unfolding with_open
  with_open-Restores core cfg call f l r k =
      go (open_session core.manager cfg call.now call.dial)
        (open_session-Opens core.manager cfg call.now call.dial l r)
    where
      go :
          (o : Manager × (Session ⊎ OpenError))
          → Opens core.manager o
          → Restores core.manager (elim o.1 as (λ _. Core d x × Response) [
            | inl s ↦ f (record core { manager = o.0 }) s
            | inr e ↦ (record core { manager = o.0 }, open_failure call e)
          ])
      go (m, inl s) q =
          let closed = k (record core { manager = m }) s in
          (
            ap (λ (n : Manager). n.sessions) closed ∙ q.2,
            ap (λ (n : Manager). n.handles) closed ∙ q.3,
          )
      go (m, inr e) q = q

  tested_closes :
      (core opened : Core d x) (s : Session)
      → (tested d x core opened s).0.manager ≡ close opened.manager s.id
  unfolding tested
  tested_closes core opened s = refl

  listed_closes :
      (core opened : Core d x) (s : Session)
      → (listed d x core opened s).0.manager ≡ close opened.manager s.id
  unfolding listed
  listed_closes core opened s = refl

  probed :
      (op : Op) (core : Core d x) (call : Call) (req : Request Arg)
      → (op ≡ Op.test_connection) ⊎ (op ≡ Op.databases_for)
      → core.manager.seq + 1 < 2 ^ 64
      → Registry core.manager
      → Restores core.manager (dispatch_to d x op core call req)
  unfolding dispatch_to test_connection databases_for with_config
  probed op core call req (inl e) l r =
      subst (λ (o : Op). Restores core.manager (dispatch_to d x o core call req)) (sym e)
        (go req.config)
    where
      go :
          (o : Option Config)
          → Restores core.manager (with_config d x core o (test_connection d x core call))
      go none = (refl, refl)
      go (some cfg) = with_open-Restores core cfg call (tested d x core) l r (tested_closes core)
  probed op core call req (inr e) l r =
      subst (λ (o : Op). Restores core.manager (dispatch_to d x o core call req)) (sym e)
        (go req.config)
    where
      go :
          (o : Option Config)
          → Restores core.manager (with_config d x core o (databases_for d x core call))
      go none = (refl, refl)
      go (some cfg) =
          if_rule (Restores core.manager) (is_sqlite cfg.engine)
            {x = (core, ok (Payload.names_reply []))}
            {y = with_open d x core (for_enumeration cfg) call (listed d x core)} (refl, refl)
            (with_open-Restores core (for_enumeration cfg) call (listed d x core) l r
              (listed_closes core))

  -- From a well-formed registry with fewer than 2^64 - 1 ids given out, a testConnection or
  -- databasesFor request leaves the sessions and the open handles as they were, whether the
  -- connection is made or not and whatever the server answers.
  pub dispatch-Restores :
      (core : Core d x) (call : Call) (req : Request Arg)
      → (req.op ≡ Op.test_connection) ⊎ (req.op ≡ Op.databases_for)
      → core.manager.seq + 1 < 2 ^ 64
      → Registry core.manager
      → Restores core.manager (dispatch d x core call req)
  unfolding dispatch
  dispatch-Restores core call req h l r = probed req.op core call req h l r
