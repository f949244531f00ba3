-- ===== src/Command/Closing.antt =====
-- core/cmd/dbcrawler/main.go: what is left open behind the command.
use db_crawler.Command.{
  Flags, Exit, Start, Outcome, finished, stopped, bare, answered, talk, flagged, ended, act,
  connected, begun, main, opened_id, start_of, nothing, give_up, connect, no_connection,
}
use db_crawler.Prelude.{
  ℕ, suc, ◌+◌, ◌^◌, ◌<◌, ◌≡◌, Bool, true, false, not, List, [], ◌∷◌, Option, none, some, ◌⊎◌, inl,
  inr, if_rule, length, arith,
}
use db_crawler.Protocol.Dispatch.{Core, dispatch}
use db_crawler.Protocol.Registered.{dispatch-Registry}
use db_crawler.Protocol.Runs.{started, dispatch_seq, new_manager-Registry}
use db_crawler.Protocol.{Op, Request, Response, Explorer, Call}
use db_crawler.Query.{Database}
use db_crawler.Session.Closing.{close_all_lem}
use db_crawler.Session.Registry.{Registry}
use db_crawler.Session.{Manager}
use db_crawler.Text.{Text, Unicode, is_nil, trim_space}
use db_crawler.Values.{Formats}

-- Room for so many more ids.
abbrev pub Sound : ℕ → Manager → Type 0
Sound k m = Registry m × (m.seq + k < 2 ^ 64)

module _ ⦃u : Unicode⦄ {fmt : Formats} {Arg : Type 0} (d : Database fmt Arg)
    (x : Explorer d.St) where
  -- A return leaves no session and no handle.
  abbrev LeavesNothing : Outcome d x → Type 0
  LeavesNothing o = o.exit ≡ none → (o.core.manager.sessions ≡ []) × (o.core.manager.handles ≡ [])

  finished-LeavesNothing :
      (core : Core d x) (replies : List Response)
      → Registry core.manager
      → LeavesNothing (finished d x core replies)
  finished-LeavesNothing core replies r h =
      ((close_all_lem core.manager r).0, (close_all_lem core.manager r).1)

  stopped-LeavesNothing :
      (core : Core d x) (replies : List Response) (e : Exit)
      → LeavesNothing (stopped d x core replies e)
  stopped-LeavesNothing core replies e h = absurd (cc h)

  dispatch-Sound :
      (k : ℕ) (core : Core d x) (call : Call) (req : Request Arg)
      → Sound (suc k) core.manager
      → Sound k (dispatch d x core call req).0.manager
  dispatch-Sound k core call req s = (
    dispatch-Registry d x core call req (omega (arith, s.1)) s.0,
    omega (arith, s.1, dispatch_seq d x core call req),
  )

  pub answered-Sound :
      (k : ℕ) (core : Core d x) (call : Call) (o : Option (Request Arg))
      → Sound (suc k) core.manager
      → Sound k (answered d x core call o).0.manager
  unfolding answered
  answered-Sound k core call none s = (s.0, omega (arith, s.1))
  answered-Sound k core call (some req) s = dispatch-Sound k core call req s

  module _ (decode : Text → Option (Request Arg)) (calls : ℕ → Call) where
    talk-Registry :
        (ls : List Text) (n : ℕ) (core : Core d x)
        → Sound (length ls) core.manager
        → Registry (talk d x decode calls n core ls).0.manager
    unfolding talk
    talk-Registry [] n core s = s.0
    talk-Registry (l ∷ ls) n core s =
        if_rule (λ (r : Core d x × List Response). Registry r.0.manager) (is_nil (trim_space l))
          {x = talk d x decode calls n core ls} {y = (rest.0, r.1 ∷ rest.1)}
          (talk-Registry ls n core (s.0, omega (arith, s.1)))
          (talk-Registry ls (suc n) r.0
            (answered-Sound (length ls) core (calls n) (decode (trim_space l)) s))
      where
        r : Core d x × Response
        r = answered d x core (calls n) (decode (trim_space l))

        rest : Core d x × List Response
        rest = talk d x decode calls (suc n) r.0 ls

    ended-LeavesNothing :
        (failed : Bool) (r : Core d x × List Response)
        → Registry r.0.manager
        → LeavesNothing (ended d x decode calls failed r)
    unfolding ended
    ended-LeavesNothing true (core, replies) r = stopped-LeavesNothing core replies _
    ended-LeavesNothing false (core, replies) r = finished-LeavesNothing core replies r

    flagged-LeavesNothing :
        (n : ℕ) (core : Core d x) (id : Text) (req : Request Arg)
        → Sound 1 core.manager
        → LeavesNothing (flagged d x decode calls n core id req)
    unfolding flagged
    flagged-LeavesNothing n core id req s =
        if_rule LeavesNothing (is_nil id) {x = stopped d x core [] no_connection}
          {y = finished d x r.0 (r.1 ∷ [])} (stopped-LeavesNothing core [] no_connection)
          (finished-LeavesNothing r.0 (r.1 ∷ []) (dispatch-Sound 0 core (calls n) req s).0)
      where
        r : Core d x × Response
        r = dispatch d x core (calls n) req

    act-LeavesNothing :
        (f : Flags) (lines : List Text) (failed : Bool) (n : ℕ) (core : Core d x) (id : Text)
        → Sound (length lines + 1) core.manager
        → LeavesNothing (act d x decode calls f lines failed n core id)
    unfolding act
    act-LeavesNothing f lines failed n core id s =
        if_rule LeavesNothing f.list_tables (flagged-LeavesNothing n core id _ one) (
          if_rule LeavesNothing (not (is_nil f.run_sql)) (flagged-LeavesNothing n core id _ one) (
            ended-LeavesNothing failed (talk d x decode calls n core lines)
              (talk-Registry lines n core (s.0, omega (arith, s.1)))))
      where
        one : Sound 1 core.manager
        one = (s.0, omega (arith, s.1))

    connected-LeavesNothing :
        (f : Flags) (lines : List Text) (failed : Bool) (core : Core d x) (o : Text ⊎ Exit)
        → Sound (length lines + 1) core.manager
        → LeavesNothing (connected d x decode calls f lines failed core o)
    unfolding connected
    connected-LeavesNothing f lines failed core (inl id) s =
        act-LeavesNothing f lines failed 1 core id s
    connected-LeavesNothing f lines failed core (inr e) s = stopped-LeavesNothing core [] e

    begun-LeavesNothing :
        (f : Flags) (lines : List Text) (failed : Bool) (core : Core d x) (st : Start)
        → Sound (length lines + 2) core.manager
        → LeavesNothing (begun d x decode calls f lines failed core st)
    unfolding begun
    begun-LeavesNothing f lines failed core nothing s =
        act-LeavesNothing f lines failed 0 core [] (s.0, omega (arith, s.1))
    begun-LeavesNothing f lines failed core (give_up e) s = stopped-LeavesNothing core [] e
    begun-LeavesNothing f lines failed core (connect cfg) s =
        connected-LeavesNothing f lines failed r.0 (opened_id r.1)
          (dispatch-Sound (length lines + 1) core (calls 0) req (s.0, omega (arith, s.1)))
      where
        req : Request Arg
        req = record (bare Op.open_connection) { config = some cfg }

        r : Core d x × Response
        r = dispatch d x core (calls 0) req

    -- A command that returns without an error, from a new registry on and with fewer than 2^64
    -- - 2 lines on stdin, leaves no session and no open handle, whatever its flags and the
    -- requests of the lines are.
    pub main_closes :
        (f : Flags) (lines : List Text) (failed : Bool) (world : d.St)
        → length lines + 2 < 2 ^ 64
        → (main d x decode calls f lines failed (started d x world)).exit ≡ none
        → ((main d x decode calls f lines failed (started d x world)).core.manager.sessions ≡ [])
          × ((main d x decode calls f lines failed (started d x world)).core.manager.handles ≡ [])
    unfolding main started
    main_closes f lines failed world l h =
        begun-LeavesNothing f lines failed (started d x world) (start_of f)
          (new_manager-Registry, omega (arith, l)) h
