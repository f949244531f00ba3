-- ===== src/Ffi.antt =====
-- core/ffi/ffi.go: the calls of the app. The manager is made at the first call that needs it; the
-- C strings are texts, and what they decode to is a parameter. dbcrawler_free only gives memory back.
pub mod Shutdown
use db_crawler.Command.{answered}
use db_crawler.Prelude.{List, [], ◌∷◌, Option, none, some}
use db_crawler.Protocol.Dispatch.{Core}
use db_crawler.Protocol.Runs.{started}
use db_crawler.Protocol.{Request, Code, Response, fail, Explorer, Call}
use db_crawler.Query.{Database}
use db_crawler.Session.{close_all}
use db_crawler.Text.{Text, Unicode}
use db_crawler.Values.{Formats}

module _ ⦃u : Unicode⦄ {fmt : Formats} {Arg : Type 0} (d : Database fmt Arg)
    (x : Explorer d.St) where
  -- `manager`, with the servers as they are before it is made.
  pub record Library : Type 0 where
    pub outside : d.St
    pub made : Option (Core d x)

  -- `core()`: once.Do
  made_core : d.St → Option (Core d x) → Core d x
  made_core world none = started d x world
  made_core world (some core) = core

  unfoldable pub core_of : Library → Core d x
  unfolding made_core started
  core_of l = made_core l.outside l.made

  -- A null pointer is answered without the manager.
  unfoldable pub dbcrawler_call :
      (Text → Option (Request Arg)) → Library → Call → Option Text → Library × Response
  unfolding core_of answered
  dbcrawler_call decode l call none = (l, fail Code.bad_request)
  dbcrawler_call decode l call (some request) =
      let r = answered d x (core_of l) call (decode request) in (record l { made = some r.0 }, r.1)

  unfoldable pub dbcrawler_shutdown : Library → Library
  unfolding core_of close_all
  dbcrawler_shutdown l =
      let core = core_of l in
      record l { made = some (record core { manager = close_all core.manager }) }
