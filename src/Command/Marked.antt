-- ===== src/Command/Marked.antt =====
-- core/cmd/dbcrawler/main.go: the command with -read-only, against the state of the servers.
use db_crawler.Command.{
  Flags, Exit, Start, Outcome, finished, stopped, bare, answered, talk, flagged, ended, act,
  connected, begun, main, opened_id, start_of, raw_start, nothing, give_up, connect, no_connection,
  config_with,
}
use db_crawler.Engine.{Engine, sqlite, parse_engine}
use db_crawler.Prelude.{
  ℕ, suc, ◌≡◌, Bool, true, false, not, ◌&&◌, List, [], ◌∷◌, Option, none, some, ◌⊎◌, inl, inr,
  if_rule, All,
}
use db_crawler.Protocol.Dispatch.{Core, dispatch}
use db_crawler.Protocol.Marked.{MarkedConfig, IsSafe, dispatch-IsSafe}
use db_crawler.Protocol.Runs.{started}
use db_crawler.Protocol.{Op, Request, Response, Explorer, Call}
use db_crawler.Query.Execute.Safety.{KeptByReads}
use db_crawler.Query.{Database}
use db_crawler.Session.{new_manager}
use db_crawler.Text.{Text, Unicode, is_nil, trim_space}
use db_crawler.Values.{Formats}

-- The connection that the flags ask for, if they do, is marked.
abbrev MarkedStart : Start → Type 0
MarkedStart nothing = Unit
MarkedStart (give_up e) = Unit
MarkedStart (connect cfg) = cfg.read_only ≡ true

raw_start_mark : (f : Flags) (o : Option Engine) → f.read_only ≡ true → MarkedStart (raw_start f o)
unfolding raw_start
raw_start_mark f none h = tt
raw_start_mark f (some e) h = h

start_of_mark : ⦃u : Unicode⦄ (f : Flags) → f.read_only ≡ true → MarkedStart (start_of f)
unfolding start_of
start_of_mark f h = if_rule MarkedStart (is_nil f.sqlite_path && is_nil f.dsn) {x = nothing} tt (
    if_rule MarkedStart (not (is_nil f.sqlite_path))
      {x = connect (record (config_with f sqlite) { file = f.sqlite_path })} h
      (raw_start_mark f (parse_engine f.engine) h))

module _ ⦃u : Unicode⦄ {fmt : Formats} {Arg : Type 0} (d : Database fmt Arg) (x : Explorer d.St)
    (P : d.St → Type 0) (keep : KeptByReads d P) where
  -- The request that a line of stdin decodes to, if it does, connects read-only at most.
  abbrev pub MarkedRequest : Option (Request Arg) → Type 0
  MarkedRequest none = Unit
  MarkedRequest (some req) = MarkedConfig req.config

  abbrev Safe : Core d x → Type 0
  Safe = IsSafe d x P keep

  abbrev Keeps : Outcome d x → Type 0
  Keeps o = P o.core.world

  answered-Safe :
      (core : Core d x) (call : Call) (o : Option (Request Arg))
      → MarkedRequest o
      → Safe core
      → Safe (answered d x core call o).0
  unfolding answered
  answered-Safe core call none h s = s
  answered-Safe core call (some req) h s = dispatch-IsSafe d x P keep core call req h s

  module _ (decode : Text → Option (Request Arg)) (calls : ℕ → Call) where
    abbrev pub MarkedLine : Text → Type 0
    MarkedLine l = MarkedRequest (decode (trim_space l))

    talk-Safe :
        (ls : List Text) (n : ℕ) (core : Core d x)
        → All MarkedLine ls
        → Safe core
        → Safe (talk d x decode calls n core ls).0
    unfolding talk
    talk-Safe [] n core a s = s
    talk-Safe (l ∷ ls) n core a s =
        if_rule (λ (r : Core d x × List Response). Safe r.0) (is_nil (trim_space l))
          {x = talk d x decode calls n core ls} {y = (rest.0, r.1 ∷ rest.1)}
          (talk-Safe ls n core a.1 s)
          (talk-Safe ls (suc n) r.0 a.1
            (answered-Safe core (calls n) (decode (trim_space l)) a.0 s))
      where
        r : Core d x × Response
        r = answered d x core (calls n) (decode (trim_space l))

        rest : Core d x × List Response
        rest = talk d x decode calls (suc n) r.0 ls

    ended-Keeps :
        (failed : Bool) (r : Core d x × List Response)
        → Safe r.0
        → Keeps (ended d x decode calls failed r)
    unfolding ended
    ended-Keeps true (core, replies) s = s.1
    ended-Keeps false (core, replies) s = s.1

    flagged-Keeps :
        (n : ℕ) (core : Core d x) (id : Text) (req : Request Arg)
        → MarkedConfig req.config
        → Safe core
        → Keeps (flagged d x decode calls n core id req)
    unfolding flagged
    flagged-Keeps n core id req h s =
        if_rule Keeps (is_nil id) {x = stopped d x core [] no_connection}
          {y = finished d x r.0 (r.1 ∷ [])} s.1
          (dispatch-IsSafe d x P keep core (calls n) req h s).1
      where
        r : Core d x × Response
        r = dispatch d x core (calls n) req

    act-Keeps :
        (f : Flags) (lines : List Text) (failed : Bool) (n : ℕ) (core : Core d x) (id : Text)
        → All MarkedLine lines
        → Safe core
        → Keeps (act d x decode calls f lines failed n core id)
    unfolding act
    act-Keeps f lines failed n core id a s =
        if_rule Keeps f.list_tables (flagged-Keeps n core id _ tt s) (
          if_rule Keeps (not (is_nil f.run_sql)) (flagged-Keeps n core id _ tt s)
            (ended-Keeps failed (talk d x decode calls n core lines) (talk-Safe lines n core a s)))

    connected-Keeps :
        (f : Flags) (lines : List Text) (failed : Bool) (core : Core d x) (o : Text ⊎ Exit)
        → All MarkedLine lines
        → Safe core
        → Keeps (connected d x decode calls f lines failed core o)
    unfolding connected
    connected-Keeps f lines failed core (inl id) a s = act-Keeps f lines failed 1 core id a s
    connected-Keeps f lines failed core (inr e) a s = s.1

    begun-Keeps :
        (f : Flags) (lines : List Text) (failed : Bool) (core : Core d x) (st : Start)
        → MarkedStart st
        → All MarkedLine lines
        → Safe core
        → Keeps (begun d x decode calls f lines failed core st)
    unfolding begun
    begun-Keeps f lines failed core nothing m a s = act-Keeps f lines failed 0 core [] a s
    begun-Keeps f lines failed core (give_up e) m a s = s.1
    begun-Keeps f lines failed core (connect cfg) m a s =
        connected-Keeps f lines failed r.0 (opened_id r.1) a
          (dispatch-IsSafe d x P keep core (calls 0) req m s)
      where
        req : Request Arg
        req = record (bare Op.open_connection) { config = some cfg }

        r : Core d x × Response
        r = dispatch d x core (calls 0) req

    -- With -read-only, and lines on stdin that decode to requests without a configuration or
    -- with one marked read-only, a property of the server's state that no statement accepted
    -- by IsReadOnly changes holds behind the command if it held before, whatever the other
    -- flags are.
    pub main-keeps :
        (f : Flags) (lines : List Text) (failed : Bool) (world : d.St)
        → f.read_only ≡ true
        → All MarkedLine lines
        → P world
        → P (main d x decode calls f lines failed (started d x world)).core.world
    unfolding main started new_manager
    main-keeps f lines failed world h a p =
        begun-Keeps f lines failed (started d x world) (start_of f) (start_of_mark f h) a (tt, p)
