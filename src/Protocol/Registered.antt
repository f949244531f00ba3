-- ===== src/Protocol/Registered.antt =====
-- core/dbcore/protocol.go: the registry behind one request and behind any number of them.
use db_crawler.Prelude.{ℕ, ◌+◌, ◌^◌, ◌<◌, Bool, true, false, ◌∷◌, Option, none, some}
use db_crawler.Protocol.Dispatch.{Core, dispatch}
use db_crawler.Protocol.{Request, Explorer, Call}
use db_crawler.Query.{Database}
use db_crawler.Session.Closing.{close-Registry, close_all-Registry}
use db_crawler.Session.Opening.{open_session-Registry}
use db_crawler.Session.Registry.{Registry}
use db_crawler.Session.Updating.{put-Registry}
use db_crawler.Session.{Manager, Session, find, cancel}
use db_crawler.Text.{Text, Unicode}
use db_crawler.Values.{Formats}
use db_crawler.Protocol.Invariant.{Inductive, dispatch-Inductive}

cancel-Registry : (m : Manager) (s : Session) (op : Text) → Registry m → Registry (cancel m s op).0
unfolding cancel
cancel-Registry m s op r = go (find op s.running)
  where
    go :
        (o : Option ℕ)
        → Registry
            (elim o as (λ _. Manager × Bool) [
              | none ↦ (m, false)
              | some c ↦ (record m { cancelled = c ∷ m.cancelled }, true)
            ]).0
    go none = r
    go (some c) = record {
      numbered = r.numbered;
      distinct = r.distinct;
      owned = r.owned;
      below = r.below;
      spread = r.spread;
    }

module _ ⦃u : Unicode⦄ where
  Registry-Inductive : (m : Manager) → m.seq + 1 < 2 ^ 64 → Registry m → Inductive Registry m
  Registry-Inductive m l r = record {
    start = r;
    opens = λ cfg now dial. open_session-Registry m cfg now dial l r;
    closes = λ n id q. close-Registry n id q;
    closes_all = λ n q. close_all-Registry n q;
    cancels = λ n s op q. cancel-Registry n s op q;
    puts = λ n id s w i h f q. put-Registry id s w i h n f q;
  }

module _ ⦃u : Unicode⦄ {fmt : Formats} {Arg : Type 0} (d : Database fmt Arg)
    (x : Explorer d.St) where
  -- Every request keeps the registry well formed, whatever its operation and its fields,
  -- whatever dialling comes to and whatever the servers answer, as long as fewer than 2^64 - 1
  -- ids have been given out: the ids of the sessions are distinct, equal their keys and have
  -- been given out, and the open handles are those of the sessions, one for each.
  pub dispatch-Registry :
      (core : Core d x) (call : Call) (req : Request Arg)
      → core.manager.seq + 1 < 2 ^ 64
      → Registry core.manager
      → Registry (dispatch d x core call req).0.manager
  dispatch-Registry core call req l r =
      dispatch-Inductive d x Registry core call req (Registry-Inductive core.manager l r)
