-- ===== src/Query/Execute/Reports.antt =====
-- What `Execute` reports: a refusal that touches nothing, or a result for each statement up to
-- the one that stops the batch.
use db_crawler.Classify.Leading.{first_keyword}
use db_crawler.Classify.{classify, is_read_only}
use db_crawler.Prelude.{
  ℕ, ◌≡◌, refl, ap, Bool, true, false, not, ◌&&◌, List, [], ◌∷◌, Option, none, some, arith, ltb,
  ◌⊎◌, inl, inr, if◌then◌else◌, length, if_rule, if_cases, All,
}
use db_crawler.Query.Execute.{
  nothing_to_run, parameters_need_one_statement, read_only, first_refusal, query_result,
  exec_result, run_one, run_all, run_guarded, execute,
}
use db_crawler.Query.Rows.{Failure, Fetched}
use db_crawler.Prelude.Int.{ℤ}
use db_crawler.Query.{QueryOptions, Database, Result}
use db_crawler.Session.{Session, guard}
use db_crawler.Split.{Statement, split_statements}
use db_crawler.Text.{Text, Unicode, is_nil}
use db_crawler.Values.{Formats}

module _ ⦃u : Unicode⦄ where
  -- One of the statements is not on the allowlist.
  abbrev pub HasWrite : List Statement → Type 0
  HasWrite [] = ⊥
  HasWrite (st ∷ rest) = (is_read_only st.text ≡ false) ⊎ HasWrite rest

  -- The keyword of the first of them.
  abbrev pub first_write : List Statement → Text
  first_write [] = []
  first_write (st ∷ rest) = if is_read_only st.text then first_write rest else first_keyword st.text

  first_refusal-HasWrite :
      (s : Session) (sts : List Statement)
      → s.config.read_only ≡ true
      → HasWrite sts
      → first_refusal s sts ≡ some (first_write sts)
  unfolding first_refusal guard
  first_refusal-HasWrite s [] h w = absurd w
  first_refusal-HasWrite s (st ∷ rest) h (inl e) = ground arith
  first_refusal-HasWrite s (st ∷ rest) h (inr w) = ground (arith, first_refusal-HasWrite s rest h w)

  -- The batch ends with this result.
  abbrev pub stops : QueryOptions → Result → Bool
  stops opts r = not (is_nil r.error) && opts.stop_on_error

  -- A result for each statement, in order, up to the first that stops the batch.
  abbrev pub Reports : QueryOptions → List Statement → List Result → Type 0
  Reports opts [] [] = Unit
  Reports opts [] (r ∷ rs) = ⊥
  Reports opts (x ∷ xs) [] = ⊥
  Reports opts (x ∷ xs) (r ∷ rs) =
      (r.statement ≡ x.text)
      × (r.class ≡ classify x.text)
      × (((stops opts r ≡ true) × (rs ≡ [])) ⊎ ((stops opts r ≡ false) × Reports opts xs rs))

module _ ⦃u : Unicode⦄ {fmt : Formats} {Arg : Type 0} (d : Database fmt Arg) where
  Describes : Text → Result → Type 0
  Describes sql r = (r.statement ≡ sql) × (r.class ≡ classify sql)

  query_result-Describes :
      (st : d.St) (sql : Text) (opts : QueryOptions) (r : Fetched fmt ⊎ Failure)
      → Describes sql (query_result d st sql opts r)
  unfolding query_result Describes
  query_result-Describes st sql opts (inl fetched) = (refl, refl)
  query_result-Describes st sql opts (inr err) = (refl, refl)

  exec_result-Describes :
      (st : d.St) (sql : Text) (r : (Option ℤ × Option ℤ) ⊎ Failure)
      → Describes sql (exec_result d st sql r)
  unfolding exec_result Describes
  exec_result-Describes st sql (inl counts) = (refl, refl)
  exec_result-Describes st sql (inr err) = (refl, refl)

  run_one-Describes :
      (st : d.St) (sql : Text) (args : List Arg) (opts : QueryOptions)
      → Describes sql (run_one d st sql args opts).1
  unfolding run_one
  run_one-Describes st sql args opts =
      let q = d.query st sql args in
      let x = d.exec st sql args in
      if_rule (λ (r : d.St × Result). Describes sql r.1) _ (query_result-Describes q.0 sql opts q.1)
        (exec_result-Describes x.0 sql x.1)

  run_all-Reports :
      (sts : List Statement) (st : d.St) (args : List Arg) (opts : QueryOptions)
      → Reports opts sts (run_all d st sts args opts).1
  unfolding run_all Describes
  run_all-Reports [] st args opts = tt
  run_all-Reports (x ∷ rest) st args opts =
      let r = run_one d st x.text args opts in
      let said = run_one-Describes st x.text args opts in
      if_cases (λ (q : d.St × List Result). Reports opts (x ∷ rest) q.1) (stops opts r.1)
        (λ e. (said.0, said.1, inl (e, refl)))
        (λ e. (said.0, said.1, inr (e, run_all-Reports rest r.0 args opts)))

  -- On a session marked read-only, with no arguments, a buffer with a statement that
  -- IsReadOnly rejects is refused as a whole, with the first keyword of the first such
  -- statement: the server's state and the session are as they were, even if statements that
  -- only read stand before it.
  pub execute_refused :
      (st : d.St) (s : Session) (ctx : ℕ) (sql : Text) (opts : QueryOptions)
      → s.config.read_only ≡ true
      → HasWrite (split_statements s.engine sql)
      → execute d st s ctx sql [] opts
        ≡ (st, s, inl (read_only (first_write (split_statements s.engine sql))))
  unfolding execute run_guarded
  execute_refused st s ctx sql opts h w = go (split_statements s.engine sql) w
    where
      go :
          (sts : List Statement)
          → HasWrite sts
          → (if is_nil sts
              then (st, s, inl nothing_to_run)
              else if ltb 0 0 && ltb 1 (length sts)
              then (st, s, inl parameters_need_one_statement)
              else run_guarded d (first_refusal s sts) st s ctx sts [] opts)
            ≡ (st, s, inl (read_only (first_write sts)))
      go [] w = absurd w
      go (x ∷ sts) w =
          ap (λ o. run_guarded d o st s ctx (x ∷ sts) [] opts)
            (first_refusal-HasWrite s (x ∷ sts) h w)

  -- A session that may write, or statements that all read.
  abbrev pub Allowed : Session → List Statement → Type 0
  Allowed s sts =
      (s.config.read_only ≡ false) ⊎ All (λ (st : Statement). is_read_only st.text ≡ true) sts

  first_refusal-Allowed :
      (s : Session) (sts : List Statement) → Allowed s sts → first_refusal s sts ≡ none
  unfolding first_refusal guard
  first_refusal-Allowed s [] h = refl
  first_refusal-Allowed s (st ∷ rest) (inl h) = ground (arith, first_refusal-Allowed s rest (inl h))
  first_refusal-Allowed s (st ∷ rest) (inr (h, hs)) =
      ground (arith, h, first_refusal-Allowed s rest (inr hs))

  -- If the buffer has a statement, arguments come only with a single statement, and the
  -- session may write or all statements pass IsReadOnly, Execute returns results: one for each
  -- statement in order, with the statement's text and class, up to the first that has an error
  -- while StopOnError is set, and none behind it.
  pub execute-Reports :
      (st : d.St) (s : Session) (ctx : ℕ) (sql : Text) (args : List Arg) (opts : QueryOptions)
      → is_nil (split_statements s.engine sql) ≡ false
      → (ltb 0 (length args) && ltb 1 (length (split_statements s.engine sql))) ≡ false
      → Allowed s (split_statements s.engine sql)
      → (rs : List Result) × ((execute d st s ctx sql args opts).2 ≡ inr rs)
        × Reports opts (split_statements s.engine sql) rs
  unfolding execute run_guarded
  execute-Reports st s ctx sql args opts some_statement one_only allowed =
      let sts = split_statements s.engine sql in
      (
        (run_all d st sts args opts).1,
        rw (some_statement, one_only, first_refusal-Allowed s sts allowed) refl,
        run_all-Reports sts st args opts,
      )
