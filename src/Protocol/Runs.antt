-- ===== src/Protocol/Runs.antt =====
-- core/dbcore/protocol.go: the life of a process, a sequence of requests from a new registry on.
use db_crawler.Prelude.{ℕ, ◌+◌, ◌^◌, ◌≤◌, ◌<◌, ◌≡◌, refl, List, [], ◌∷◌, arith, length}
use db_crawler.Protocol.Dispatch.{Core, dispatch}
use db_crawler.Protocol.Invariant.{Inductive, dispatch-Inductive}
use db_crawler.Protocol.Registered.{dispatch-Registry}
use db_crawler.Protocol.{Request, Explorer, Call}
use db_crawler.Query.{Database}
use db_crawler.Session.Closing.{close_all_lem}
use db_crawler.Session.Counting.{open_session_seq, close_seq, close_all_seq, cancel_seq}
use db_crawler.Session.Registry.{Registry}
use db_crawler.Session.{Manager, new_manager, close_all}
use db_crawler.Text.{Unicode}
use db_crawler.Values.{Formats}

pub new_manager-Registry : Registry new_manager
unfolding new_manager
new_manager-Registry = record {
  numbered = tt;
  distinct = tt;
  owned = refl;
  below = tt;
  spread = tt;
}

module _ ⦃u : Unicode⦄ where
  AtMost : ℕ → Manager → Type 0
  AtMost n m = m.seq ≤ n

  AtMost-Inductive : (m : Manager) → Inductive (AtMost (m.seq + 1)) m
  unfolding AtMost
  AtMost-Inductive m = record {
    start = omega arith;
    opens = λ cfg now dial. open_session_seq m cfg now dial;
    closes = λ n id q. omega (arith, close_seq n id, q);
    closes_all = λ n q. omega (arith, close_all_seq n, q);
    cancels = λ n s op q. omega (arith, cancel_seq n s op, q);
    puts = λ n id s w i h f q. q;
  }

module _ ⦃u : Unicode⦄ {fmt : Formats} {Arg : Type 0} (d : Database fmt Arg)
    (x : Explorer d.St) where
  -- The core behind the requests, each with what the call finds outside.
  unfoldable pub run : Core d x → List (Call × Request Arg) → Core d x
  run core [] = core
  run core ((call, req) ∷ rest) = run (dispatch d x core call req).0 rest

  -- NewManager, before servers in any state
  unfoldable pub started : d.St → Core d x
  unfolding new_manager
  started world = record { manager = new_manager; world = world; catalogs = [] }

  pub dispatch_seq :
      (core : Core d x) (call : Call) (req : Request Arg)
      → (dispatch d x core call req).0.manager.seq ≤ core.manager.seq + 1
  unfolding AtMost
  dispatch_seq core call req =
      dispatch-Inductive d x (AtMost (core.manager.seq + 1)) core call req
        (AtMost-Inductive core.manager)

  run-Registry :
      (rs : List (Call × Request Arg)) (core : Core d x)
      → core.manager.seq + length rs < 2 ^ 64
      → Registry core.manager
      → Registry (run core rs).manager
  unfolding run
  run-Registry [] core l r = r
  run-Registry ((call, req) ∷ rest) core l r =
      let next = (dispatch d x core call req).0 in
      let bound = dispatch_seq core call req in
      run-Registry rest next (omega (arith, l, bound))
        (dispatch-Registry d x core call req (omega (arith, l)) r)

  -- Behind any sequence of fewer than 2^64 requests from a new registry on, whatever they are,
  -- whatever dialling comes to and whatever the servers answer, the registry is well formed:
  -- the ids of the sessions are distinct and the open handles are those of the sessions, one
  -- for each. Closing all sessions then leaves no session and no open handle.
  pub run_lem :
      (world : d.St) (rs : List (Call × Request Arg))
      → length rs < 2 ^ 64
      → Registry (run (started world) rs).manager
        × ((close_all (run (started world) rs).manager).sessions ≡ [])
        × ((close_all (run (started world) rs).manager).handles ≡ [])
  unfolding started new_manager
  run_lem world rs l =
      let r = run-Registry rs (started world) (omega (arith, l)) new_manager-Registry in
      (
        r,
        (close_all_lem (run (started world) rs).manager r).0,
        (close_all_lem (run (started world) rs).manager r).1,
      )
