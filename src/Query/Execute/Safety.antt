-- ===== src/Query/Execute/Safety.antt =====
-- What can reach the server through a connection that is marked read-only, and what `Execute`
-- reports.
use db_crawler.Classify.{is_read_only}
use db_crawler.Prelude.{
  ℕ, ◌≡◌, refl, true, ◌&&◌, List, [], ◌∷◌, Option, none, some, arith, ltb, ◌⊎◌, inl, if◌then◌else◌,
  length, All, if_rule,
}
use db_crawler.Query.Execute.{
  ExecuteError, nothing_to_run, parameters_need_one_statement, first_refusal, run_one, run_all,
  run_guarded, execute,
}
use db_crawler.Query.{QueryOptions, Database, Result}
use db_crawler.Session.{Session, guard}
use db_crawler.Split.{Statement, split_statements}
use db_crawler.Text.{Text, Unicode, is_nil}
use db_crawler.Values.{Formats}

module _ ⦃u : Unicode⦄ where
  abbrev AllRead : List Statement → Type 0
  AllRead = All (λ (st : Statement). is_read_only st.text ≡ true)

  guard-none :
      (s : Session) (sql : Text)
      → s.config.read_only ≡ true
      → guard s.config sql ≡ none
      → is_read_only sql ≡ true
  unfolding guard
  guard-none s sql h g = ground arith

  first_refusal-none :
      (s : Session) (sts : List Statement)
      → s.config.read_only ≡ true
      → first_refusal s sts ≡ none
      → AllRead sts
  unfolding first_refusal
  first_refusal-none s [] h g = tt
  first_refusal-none s (st ∷ rest) h g =
      (guard-none s st.text h (ground arith), first_refusal-none s rest h (ground arith))

module _ ⦃u : Unicode⦄ {fmt : Formats} {Arg : Type 0} (d : Database fmt Arg) where
  -- A property of the server's state that no statement allowed to a reader changes.
  abbrev pub KeptByReads : (d.St → Type 0) → Type 0
  KeptByReads P =
      (st : d.St) (sql : Text) (args : List Arg)
      → is_read_only sql ≡ true
      → P st
      → P (d.query st sql args).0 × P (d.exec st sql args).0

  run_one-keeps :
      (P : d.St → Type 0)
      → KeptByReads P
      → (st : d.St) (sql : Text) (args : List Arg) (opts : QueryOptions) → is_read_only sql ≡ true
      → P st
      → P (run_one d st sql args opts).0
  unfolding run_one
  run_one-keeps P keep st sql args opts h p =
      if_rule (λ (r : d.St × Result). P r.0) _ (keep st sql args h p).0 (keep st sql args h p).1

  run_all-keeps :
      (P : d.St → Type 0)
      → KeptByReads P
      → (sts : List Statement) (st : d.St) (args : List Arg) (opts : QueryOptions) → AllRead sts
      → P st
      → P (run_all d st sts args opts).0
  unfolding run_all
  run_all-keeps P keep [] st args opts a p = p
  run_all-keeps P keep (x ∷ rest) st args opts a p =
      let q = run_one-keeps P keep st x.text args opts a.0 p in
      if_rule (λ (r : d.St × List Result). P r.0) _ q
        (run_all-keeps P keep rest (run_one d st x.text args opts).0 args opts a.1 q)

  run_guarded-keeps :
      (P : d.St → Type 0)
      → KeptByReads P
      → (o : Option Text) (st : d.St) (s : Session) (ctx : ℕ) (sts : List Statement)
        (args : List Arg) (opts : QueryOptions)
      → first_refusal s sts ≡ o
      → s.config.read_only ≡ true
      → P st
      → P (run_guarded d o st s ctx sts args opts).0
  unfolding run_guarded
  run_guarded-keeps P keep (some word) st s ctx sts args opts e h p = p
  run_guarded-keeps P keep none st s ctx sts args opts e h p =
      run_all-keeps P keep sts st args opts (first_refusal-none s sts h e) p

  -- On a session marked read-only, a property of the server's state that no statement accepted
  -- by IsReadOnly changes holds behind any call of Execute if it held before, whatever the
  -- buffer, the arguments and the options.
  pub execute-keeps :
      (P : d.St → Type 0)
      → KeptByReads P
      → (st : d.St) (s : Session) (ctx : ℕ) (sql : Text) (args : List Arg) (opts : QueryOptions)
      → s.config.read_only ≡ true
      → P st
      → P (execute d st s ctx sql args opts).0
  unfolding execute
  execute-keeps P keep st s ctx sql args opts h p =
      if_rule Q (is_nil sts) {x = (st, s, inl nothing_to_run)} {y = checked} p (
        if_rule Q (ltb 0 (length args) && ltb 1 (length sts))
          {x = (st, s, inl parameters_need_one_statement)} {y = guarded} p
          (run_guarded-keeps P keep (first_refusal s sts) st s ctx sts args opts refl h p))
    where
      Q : d.St × Session × (ExecuteError ⊎ List Result) → Type 0
      Q r = P r.0

      sts : List Statement
      sts = split_statements s.engine sql

      guarded : d.St × Session × (ExecuteError ⊎ List Result)
      guarded = run_guarded d (first_refusal s sts) st s ctx sts args opts

      checked : d.St × Session × (ExecuteError ⊎ List Result)
      checked =
          if ltb 0 (length args) && ltb 1 (length sts)
          then (st, s, inl parameters_need_one_statement)
          else guarded
