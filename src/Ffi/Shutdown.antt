-- ===== src/Ffi/Shutdown.antt =====
-- core/ffi/ffi.go: what is left open behind dbcrawler_shutdown.
use db_crawler.Command.Closing.{Sound, answered-Sound}
use db_crawler.Ffi.{Library, core_of, dbcrawler_call, dbcrawler_shutdown}
use db_crawler.Prelude.{ℕ, suc, ◌^◌, ◌<◌, ◌≡◌, List, [], ◌∷◌, Option, none, some, length, arith}
use db_crawler.Protocol.Runs.{started, new_manager-Registry}
use db_crawler.Protocol.{Request, Explorer, Call}
use db_crawler.Query.{Database}
use db_crawler.Session.Closing.{close_all_lem}
use db_crawler.Session.Registry.{Registry}
use db_crawler.Session.{new_manager}
use db_crawler.Text.{Text, Unicode}
use db_crawler.Values.{Formats}

module _ ⦃u : Unicode⦄ {fmt : Formats} {Arg : Type 0} (d : Database fmt Arg) (x : Explorer d.St)
    (decode : Text → Option (Request Arg)) where
  -- The library behind the calls.
  abbrev pub called : List (Call × Option Text) → Library d x → Library d x
  called [] l = l
  called ((call, text) ∷ rest) l = called rest (dbcrawler_call d x decode l call text).0

  -- As it is loaded.
  abbrev pub loaded : d.St → Library d x
  loaded world = record { outside = world; made = none }

  call-Sound :
      (k : ℕ) (l : Library d x) (call : Call) (text : Option Text)
      → Sound (suc k) (core_of d x l).manager
      → Sound k (core_of d x (dbcrawler_call d x decode l call text).0).manager
  unfolding dbcrawler_call core_of
  call-Sound k l call none s = (s.0, omega (arith, s.1))
  call-Sound k l call (some t) s = answered-Sound d x k (core_of d x l) call (decode t) s

  called-Registry :
      (cs : List (Call × Option Text)) (l : Library d x)
      → Sound (length cs) (core_of d x l).manager
      → Registry (core_of d x (called cs l)).manager
  called-Registry [] l s = s.0
  called-Registry ((call, text) ∷ rest) l s =
      called-Registry rest (dbcrawler_call d x decode l call text).0
        (call-Sound (length rest) l call text s)

  loaded-Sound : (world : d.St) (k : ℕ) → k < 2 ^ 64 → Sound k (core_of d x (loaded world)).manager
  unfolding core_of started new_manager
  loaded-Sound world k h = (new_manager-Registry, omega (arith, h))

  -- Behind fewer than 2^64 calls from the app, whatever texts they pass and also null
  -- pointers, from a library just loaded on, dbcrawler_shutdown leaves no session and no open
  -- handle.
  pub shutdown_closes :
      (world : d.St) (cs : List (Call × Option Text))
      → length cs < 2 ^ 64
      → ((core_of d x (dbcrawler_shutdown d x (called cs (loaded world)))).manager.sessions ≡ [])
        × ((core_of d x (dbcrawler_shutdown d x (called cs (loaded world)))).manager.handles ≡ [])
  unfolding dbcrawler_shutdown core_of
  shutdown_closes world cs h =
      let r = called-Registry cs (loaded world) (loaded-Sound world (length cs) h) in
      (
        (close_all_lem (core_of d x (called cs (loaded world))).manager r).0,
        (close_all_lem (core_of d x (called cs (loaded world))).manager r).1,
      )
