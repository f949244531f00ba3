-- ===== src/Query/Execute/Tracking.antt =====
-- Which operations a session tracks behind a call of `Execute`.
use db_crawler.Prelude.{
  ℕ, ◌≡◌, refl, Bool, true, false, not, ◌&&◌, List, Option, none, some, arith, ltb, ◌⊎◌, inl, inr,
  if◌then◌else◌, length, if_rule, if_cases,
}
use db_crawler.Query.Execute.{
  ExecuteError, nothing_to_run, parameters_need_one_statement, first_refusal, run_guarded, execute,
}
use db_crawler.Query.{QueryOptions, Database, Result}
use db_crawler.Session.Maps.{find-put, find-delete}
use db_crawler.Session.{Session, track, untrack, find, put}
use db_crawler.Split.{Statement, split_statements}
use db_crawler.Text.{Text, Unicode, is_nil, text_eq}
use db_crawler.Values.{Formats}

-- The operation is not tracked any more, and all others are as they were.
track-untrack :
    (s : Session) (id op : Text) (ctx : ℕ)
    → find op (untrack (track s id ctx) id).running
      ≡ (if text_eq id op then none else find op s.running)
unfolding track untrack
track-untrack s id op ctx =
    ground (arith, find-delete id op (put id ctx s.running), find-put id op ctx s.running)

module _ ⦃u : Unicode⦄ {fmt : Formats} {Arg : Type 0} (d : Database fmt Arg) where
  -- Whether the call got to running its statements.
  abbrev pub ran : ExecuteError ⊎ List Result → Bool
  ran (inl refused) = false
  ran (inr results) = true

  -- What is tracked under `op` behind a call: nothing, if `op` is the id of a call that ran.
  abbrev pub tracked_behind : Session → QueryOptions → Text → ExecuteError ⊎ List Result → Option ℕ
  tracked_behind s opts op o =
      if ran o && not (is_nil opts.op_id) && text_eq opts.op_id op then none else find op s.running

  run_guarded-untracks :
      (o : Option Text) (st : d.St) (s : Session) (ctx : ℕ) (sts : List Statement) (args : List Arg)
      (opts : QueryOptions) (op : Text)
      → find op (run_guarded d o st s ctx sts args opts).1.running
        ≡ tracked_behind s opts op (run_guarded d o st s ctx sts args opts).2
  unfolding run_guarded
  run_guarded-untracks (some word) st s ctx sts args opts op = refl
  run_guarded-untracks none st s ctx sts args opts op =
      if_cases
        (λ (t : Session).
          find op t.running
          ≡ (if not (is_nil opts.op_id) && text_eq opts.op_id op then none else find op s.running))
        (is_nil opts.op_id) (λ h. rw h refl) (λ h. rw h (track-untrack s opts.op_id op ctx))

  -- Behind a call of Execute that ran its statements under an operation id, the session tracks
  -- nothing under that id, even if it did before; under every other id, and behind a call that
  -- was refused or has no id, it tracks what it tracked before.
  pub execute-untracks :
      (st : d.St) (s : Session) (ctx : ℕ) (sql : Text) (args : List Arg) (opts : QueryOptions)
      (op : Text)
      → find op (execute d st s ctx sql args opts).1.running
        ≡ tracked_behind s opts op (execute d st s ctx sql args opts).2
  unfolding execute
  execute-untracks st s ctx sql args opts op =
      if_rule M (is_nil sts) {x = (st, s, inl nothing_to_run)} {y = checked} refl (
        if_rule M (ltb 0 (length args) && ltb 1 (length sts))
          {x = (st, s, inl parameters_need_one_statement)} {y = guarded} refl
          (run_guarded-untracks (first_refusal s sts) st s ctx sts args opts op))
    where
      sts : List Statement
      sts = split_statements s.engine sql

      M : d.St × Session × (ExecuteError ⊎ List Result) → Type 0
      M r = find op r.1.running ≡ tracked_behind s opts op r.2

      guarded : d.St × Session × (ExecuteError ⊎ List Result)
      guarded = run_guarded d (first_refusal s sts) st s ctx sts args opts

      checked : d.St × Session × (ExecuteError ⊎ List Result)
      checked =
          if ltb 0 (length args) && ltb 1 (length sts)
          then (st, s, inl parameters_need_one_statement)
          else guarded

  -- The session that is given back is the one that was given, but for what it tracks.
  abbrev pub SameSession : Session → d.St × Session × (ExecuteError ⊎ List Result) → Type 0
  SameSession s r = (r.1.id ≡ s.id) × (r.1.db ≡ s.db) × (r.1.config ≡ s.config)

  run_guarded_same :
      (o : Option Text) (st : d.St) (s : Session) (ctx : ℕ) (sts : List Statement) (args : List Arg)
      (opts : QueryOptions)
      → SameSession s (run_guarded d o st s ctx sts args opts)
  unfolding run_guarded track untrack
  run_guarded_same (some word) st s ctx sts args opts = (refl, refl, refl)
  run_guarded_same none st s ctx sts args opts =
      if_rule (λ (t : Session). (t.id ≡ s.id) × (t.db ≡ s.db) × (t.config ≡ s.config))
        (is_nil opts.op_id) (refl, refl, refl) (refl, refl, refl)

  pub execute_same :
      (st : d.St) (s : Session) (ctx : ℕ) (sql : Text) (args : List Arg) (opts : QueryOptions)
      → SameSession s (execute d st s ctx sql args opts)
  unfolding execute
  execute_same st s ctx sql args opts =
      let sts = split_statements s.engine sql in
      if_rule (SameSession s) (is_nil sts) (refl, refl, refl)
        (if_rule (SameSession s) (ltb 0 (length args) && ltb 1 (length sts)) (refl, refl, refl)
          (run_guarded_same (first_refusal s sts) st s ctx sts args opts))
