-- ===== src/Query/Execute.antt =====
-- core/dbcore/query.go: `runOne` and `Execute`, over what the database answers.
pub mod Safety
pub mod Reports
pub mod Tracking
use db_crawler.Classify.{StatementKind, classify, select}
use db_crawler.Prelude.Int.{ℤ, is_zero}
use db_crawler.Prelude.{
  ℕ, Bool, true, false, not, ◌&&◌, ◌||◌, List, [], ◌∷◌, Option, none, some, ltb, ◌⊎◌, inl, inr,
  if◌then◌else◌, length,
}
use db_crawler.Query.Rows.{Failure, Fetched, Read, read_rows}
use db_crawler.Query.{
  QueryOptions, max_rows, describe_error, returns_rows, Database, Result, ResultKind, rows,
  affected, blank,
}
use db_crawler.Session.{Session, guard, track, untrack}
use db_crawler.Split.{Statement, split_statements}
use db_crawler.Text.{Text, Unicode, is_nil}
use db_crawler.Values.{Formats}

pub data ExecuteError : Type 0 where
  nothing_to_run parameters_need_one_statement : ExecuteError
  read_only : Text → ExecuteError

abbrev is_select : StatementKind → Bool
is_select select = true
is_select _ = false

-- The first refusal of `guard`, by its keyword.
unfoldable pub first_refusal : ⦃u : Unicode⦄ → Session → List Statement → Option Text
first_refusal s [] = none
first_refusal s (st ∷ rest) =
    let later = first_refusal s rest in
    elim (guard s.config st.text) [ some word ↦ some word | none ↦ later ]

-- `err == nil && id != 0`
not_zero : Option ℤ → Option ℤ
not_zero none = none
not_zero (some i) = if is_zero i then none else some i

module _ ⦃u : Unicode⦄ {fmt : Formats} {Arg : Type 0} (d : Database fmt Arg) where
  -- The result of a statement that was sent to `QueryContext`.
  unfoldable pub query_result : d.St → Text → QueryOptions → Fetched fmt ⊎ Failure → Result
  query_result st statement opts (inr err) = record (blank rows statement (classify statement)) {
    error = describe_error err (d.context st);
  }
  query_result st statement opts (inl fetched) =
      let r = read_rows fmt fetched (max_rows opts) in
      record (blank rows statement (classify statement)) {
        columns = r.columns;
        data_rows = r.rows;
        truncated = r.truncated;
        error = elim r.error [ none ↦ [] | some err ↦ describe_error err (d.context st) ];
      }

  -- The result of a statement that was sent to `ExecContext`.
  unfoldable pub exec_result : d.St → Text → (Option ℤ × Option ℤ) ⊎ Failure → Result
  unfolding not_zero
  exec_result st statement (inr err) = record (blank affected statement (classify statement)) {
    error = describe_error err (d.context st);
  }
  exec_result st statement (inl (count, id)) =
      record (blank affected statement (classify statement)) {
        rows_affected = count;
        last_insert_id = not_zero id;
      }

  unfoldable pub run_one : d.St → Text → List Arg → QueryOptions → d.St × Result
  run_one st statement args opts =
      if is_select (classify statement) || returns_rows statement
      then (let r = d.query st statement args in (r.0, query_result r.0 statement opts r.1))
      else (let r = d.exec st statement args in (r.0, exec_result r.0 statement r.1))

  unfoldable pub run_all : d.St → List Statement → List Arg → QueryOptions → d.St × List Result
  run_all st [] args opts = (st, [])
  run_all st (x ∷ rest) args opts =
      let r = run_one st x.text args opts in
      let later = run_all r.0 rest args opts in
      if not (is_nil r.1.error) && opts.stop_on_error
      then (r.0, r.1 ∷ [])
      else (later.0, r.1 ∷ later.1)

  -- Behind the guard: `ctx` names the context made for the call, whose cancel function is
  -- tracked while the statements run.
  unfoldable pub run_guarded :
      Option Text
      → d.St
      → Session
      → ℕ
      → List Statement
      → List Arg
      → QueryOptions
      → d.St × Session × (ExecuteError ⊎ List Result)
  run_guarded (some word) st s ctx statements args opts = (st, s, inl (read_only word))
  run_guarded none st s ctx statements args opts =
      let r = run_all st statements args opts in
      (r.0, if is_nil opts.op_id then s else untrack (track s opts.op_id ctx) opts.op_id, inr r.1)

  -- The server, the session behind the call and the results.
  unfoldable pub execute :
      d.St
      → Session
      → ℕ
      → Text
      → List Arg
      → QueryOptions
      → d.St × Session × (ExecuteError ⊎ List Result)
  execute st s ctx sql args opts =
      let statements = split_statements s.engine sql in
      if is_nil statements
      then (st, s, inl nothing_to_run)
      else if ltb 0 (length args) && ltb 1 (length statements)
      then (st, s, inl parameters_need_one_statement)
      else run_guarded (first_refusal s statements) st s ctx statements args opts
