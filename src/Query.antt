-- ===== src/Query.antt =====
-- core/dbcore/query.go: running the statements of a buffer.
pub mod Rows
pub mod Execute
use Rows.{Failure, Column, Fetched}
use db_crawler.Classify.Leading.{first_keyword}
use db_crawler.Classify.Words.{contains_word}
use db_crawler.Classify.{StatementKind, classify, select, dml}
use db_crawler.Dsn.{Config}
use db_crawler.Engine.{Engine}
use db_crawler.Prelude.Int.{ℤ, pos, negsuc, is_zero, is_negative, exceeds, to_nat}
use db_crawler.Prelude.{
  ℕ, zero, suc, ◌+◌, ◌*◌, ◌%◌, ◌^◌, Bool, true, false, not, ◌&&◌, ◌||◌, List, [], ◌∷◌, Option, none,
  some, ltb, ◌⊎◌, inl, inr, if◌then◌else◌, length,
}
use db_crawler.Session.{guard}
use db_crawler.Split.{Statement, split_statements}
use db_crawler.Text.{Text, Unicode, codes, one_of, is_nil, to_upper}
use db_crawler.Values.{Formats, DriverValue, Cell}

pub record QueryOptions : Type 0 where
  pub max_rows : ℤ
  pub timeout_seconds : ℤ
  pub op_id : Text
  pub stop_on_error : Bool

-- A negative cap is no cap.
unfoldable pub max_rows : QueryOptions → ℤ
max_rows o = if is_zero o.max_rows then pos 500 else o.max_rows

-- In nanoseconds, as the bits of an int64: the product wraps.
unfoldable pub timeout : QueryOptions → ℕ
timeout o =
    if exceeds o.timeout_seconds 0 then to_nat o.timeout_seconds * 10 ^ 9 % 2 ^ 64 else 60 * 10 ^ 9

-- The second argument is what `ctx.Err()` says.
unfoldable pub describe_error : Failure → Failure → Text
describe_error err ctx =
    if err.is_canceled || ctx.is_canceled
    then codes "cancelled"
    else if err.is_deadline || ctx.is_deadline
    then codes "timed out"
    else err.message

module _ ⦃u : Unicode⦄ where
  -- The switch of `returnsRows`, on the keyword.
  returns_by : Text → Text → Bool
  returns_by statement word =
      let upper = to_upper statement in
      let clause =
        contains_word upper (codes "RETURNING") || contains_word upper (codes "OUTPUT") in
      if one_of word ("INSERT" ∷ "UPDATE" ∷ "DELETE" ∷ "MERGE" ∷ [])
      then clause
      else if one_of word ("WITH" ∷ [])
      then elim (classify statement) [ select ↦ true | _ ↦ clause ]
      else one_of word
          ("SHOW" ∷ "EXPLAIN" ∷ "DESCRIBE" ∷ "DESC" ∷ "PRAGMA" ∷ "CALL" ∷ "EXEC" ∷ "EXECUTE" ∷ [])

  unfoldable pub returns_rows : Text → Bool
  unfolding returns_by
  returns_rows statement = returns_by statement (first_keyword statement)

-- What `db` and the clock answer. `St` is the state of the server and of everything outside.
pub record Database (fmt : Formats) (Arg : Type 0) : Type 1 where
  pub St : Type 0
  pub query : St → Text → List Arg → St × (Fetched fmt ⊎ Failure)
  pub exec : St → Text → List Arg → St × ((Option ℤ × Option ℤ) ⊎ Failure)
  -- ctx.Err() when a statement ends
  pub context : St → Failure

pub data ResultKind : Type 0 where
  rows affected : ResultKind

-- The elapsed time is left out. An empty `error` is success.
pub record Result : Type 0 where
  pub kind : ResultKind
  pub statement : Text
  pub class : StatementKind
  pub columns : List Column
  pub data_rows : List (List Cell)
  pub truncated : Bool
  pub rows_affected : Option ℤ
  pub last_insert_id : Option ℤ
  pub error : Text

abbrev pub blank : ResultKind → Text → StatementKind → Result
blank kind statement class = record {
  kind = kind;
  statement = statement;
  class = class;
  columns = [];
  data_rows = [];
  truncated = false;
  rows_affected = none;
  last_insert_id = none;
  error = [];
}
