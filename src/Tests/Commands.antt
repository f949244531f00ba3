-- ===== src/Tests/Commands.antt =====
-- The theorems on whole runs of the dispatcher and of the command, and on raw connection strings.
use db_crawler.Command.Closing.{main_closes}
use db_crawler.Command.Marked.{main-keeps}
use db_crawler.Command.{Flags, main}
use db_crawler.Dsn.Build.{dsn}
use db_crawler.Dsn.Redact.{dots, redact_dsn, redact_dsn_lem}
use db_crawler.Ffi.Shutdown.{called, loaded, shutdown_closes}
use db_crawler.Ffi.{core_of, dbcrawler_shutdown}
use db_crawler.Prelude.Int.{pos}
use db_crawler.Prelude.{some, ℕ, ◌≡◌, refl, true, false, [], List, ◌∷◌, ◌++◌, Option, none, arith}
use db_crawler.Protocol.Dispatch.{dispatch}
use db_crawler.Protocol.Marked.{IsSafe, run-IsSafe}
use db_crawler.Protocol.Runs.{run, started}
use db_crawler.Protocol.{Op, Request, Call}
use db_crawler.Tests.Base.{plain, server}
use db_crawler.Tests.Execution.{three_writes}
use db_crawler.Tests.Requests.{explorer, call, request}
use db_crawler.Text.{Text, codes}

abbrev Untouched : ℕ → Type 0
Untouched n = n ≡ 3

-- A session is opened read-only and sent a write.
abbrev attempts : List (Call × Request Unit)
attempts =
    (call, request Op.open_connection)
    ∷ (call, record (request Op.execute_op) { sql = codes "DELETE FROM t" })
    ∷ []

run-IsSafe_example :
    IsSafe server explorer Untouched three_writes
      (run server explorer (started server explorer 3) attempts)
unfolding started
run-IsSafe_example =
    run-IsSafe server explorer Untouched three_writes attempts (started server explorer 3)
      (refl, (refl, tt)) (tt, refl)

-- dbcrawler -sqlite a.db -read-only -sql "DELETE FROM t"
abbrev flags : Flags
flags = record {
  sqlite_path = codes "a.db";
  dsn = [];
  engine = [];
  read_only = true;
  run_sql = codes "DELETE FROM t";
  list_tables = false;
  max_rows = pos 100;
}

abbrev no_request : Text → Option (Request Unit)
no_request line = none

abbrev each : ℕ → Call
each n = call

main-keeps_example :
    Untouched
      (main server explorer no_request each flags
        (codes "{" ∷ [])
        false
        (started server explorer 3)).core.world
main-keeps_example =
    main-keeps server explorer Untouched three_writes no_request each flags (codes "{" ∷ []) false 3
      refl (tt, tt) refl

main_closes_example :
    ((main server explorer no_request each flags [] false
        (started server explorer 3)).core.manager.sessions
      ≡ [])
    × ((main server explorer no_request each flags [] false
          (started server explorer 3)).core.manager.handles
        ≡ [])
unfolding main dispatch dsn
main_closes_example =
    main_closes server explorer no_request each flags [] false 3 (omega arith) refl

redact_dsn_lem_example :
    redact_dsn (λ t. none) (codes "me:p@ss:word@tcp(db)/shop")
    ≡ codes "me" ++ (b':' ∷ (dots ++ codes "@tcp(db)/shop"))
redact_dsn_lem_example =
    redact_dsn_lem (λ t. none) (codes "me") (codes "p@ss:word") (codes "tcp(db)/shop") refl
      (ground arith) (ground arith)

-- A null pointer, a text that decodes to nothing, and one that opens a session.
abbrev opens : Text → Option (Request Unit)
opens [] = none
opens (c ∷ text) = some (request Op.open_connection)

abbrev app_calls : List (Call × Option Text)
app_calls = (call, none) ∷ (call, some []) ∷ (call, some (codes "open")) ∷ []

shutdown_closes_example :
    ((core_of server explorer (
        dbcrawler_shutdown server explorer (
          called server explorer opens app_calls
            (loaded server explorer opens 3)))).manager.sessions
      ≡ [])
    × ((core_of server explorer (
          dbcrawler_shutdown server explorer (
            called server explorer opens app_calls
              (loaded server explorer opens 3)))).manager.handles
        ≡ [])
shutdown_closes_example = shutdown_closes server explorer opens 3 app_calls (omega arith)
