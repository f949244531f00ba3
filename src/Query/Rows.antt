-- ===== src/Query/Rows.antt =====
-- core/dbcore/query.go: `readRows` and `deduplicateNames`.
pub mod Cap
use db_crawler.Prelude.Int.{ℤ, pos, negsuc}
use db_crawler.Prelude.{
  ℕ, zero, suc, ◌+◌, Bool, true, false, not, ◌&&◌, ◌||◌, List, [], ◌∷◌, ◌++◌, Option, none, some,
  leb, if◌then◌else◌, length,
}
use db_crawler.Session.{find, put}
use db_crawler.Text.{Text, Unicode, codes, itoa, is_nil}
use db_crawler.Values.{Formats, DriverValue, Cell, convert_value}
use db_crawler.Values.Kind.{ValueKind, unknown, kind_for_database_type}

-- An error of the driver or of the context, by what `errors.Is` says of it.
pub record Failure : Type 0 where
  pub is_canceled : Bool
  pub is_deadline : Bool
  pub message : Text

pub record Column : Type 0 where
  pub name : Text
  pub kind : ValueKind
  pub db_type : Text
  pub nullable : Option Bool

-- `fmt.Sprintf("%s (%d)", name, n)`
unfoldable pub numbered : Text → ℕ → Text
unfolding itoa
numbered name n = name ++ (codes " (" ++ (itoa n ++ codes ")"))

-- `fmt.Sprintf("column%d", i+1)`
unfoldable pub default_name : Text → ℕ → Text
unfolding itoa
default_name name i = if is_nil name then codes "column" ++ itoa (i + 1) else name

-- The loop, at column `i`, with how often each name has been seen.
unfoldable pub dedup_loop : ℕ → List (Text × ℕ) → List Column → List Column
unfolding find put default_name numbered
dedup_loop i seen [] = []
dedup_loop i seen (c ∷ cols) =
    let name = default_name c.name i in
    let count : ℕ = elim (find name seen) [ none ↦ 0 | some n ↦ n ] in
    record c { name = elim (find name seen) [ none ↦ name | some n ↦ numbered name (n + 1) ] }
    ∷ dedup_loop (i + 1) (put name (count + 1) seen) cols

unfoldable pub deduplicate_names : List Column → List Column
unfolding dedup_loop
deduplicate_names = dedup_loop 0 []

module _ (fmt : Formats) where
  -- What a call of `rows.Next` and `rows.Scan` gives: a row, or an error of the scan.
  pub data Fetch : Type 0 where
    row : List (DriverValue fmt) → Fetch
    bad_row : Failure → Fetch

  -- A result set: an error of `rows.Columns`, or the names, the types that the driver reports
  -- and the rows, with what rows.Err() says behind the loop.
  pub record Fetched : Type 0 where
    pub column_error : Option Failure
    pub names : List Text
    pub types : List (Option (Text × Option Bool))
    pub fetches : List Fetch
    pub end_error : Option Failure

  columns_of : ⦃u : Unicode⦄ → List Text → List (Option (Text × Option Bool)) → List Column
  unfolding kind_for_database_type
  columns_of [] types = []
  columns_of (n ∷ names) [] =
      record { name = n; kind = unknown; db_type = []; nullable = none } ∷ columns_of names []
  columns_of (n ∷ names) (none ∷ types) =
      record { name = n; kind = unknown; db_type = []; nullable = none } ∷ columns_of names types
  columns_of (n ∷ names) (some (t, nullable) ∷ types) =
      record { name = n; kind = kind_for_database_type t; db_type = t; nullable = nullable }
      ∷ columns_of names types

  abbrev is_unknown : ValueKind → Bool
  is_unknown unknown = true
  is_unknown _ = false

  abbrev is_null : Cell → Bool
  is_null none = true
  is_null (some _) = false

  -- A column that has no kind yet takes that of its first value that is not NULL.
  settle : Column → Cell × ValueKind → Column
  settle c (value, kind) =
      if is_unknown c.kind && not (is_null value) then record c { kind = kind } else c

  -- One row: the cells, and the columns behind it.
  unfoldable pub convert_row : List Column → List (DriverValue fmt) → List Cell × List Column
  unfolding settle convert_value
  convert_row [] vs = ([], [])
  convert_row (c ∷ cols) [] = ([], c ∷ cols)
  convert_row (c ∷ cols) (v ∷ vs) =
      let r = convert_value fmt v c.kind in
      let rest = convert_row cols vs in (r.0 ∷ rest.0, settle c r ∷ rest.1)

  pub record Read : Type 0 where
    pub columns : List Column
    pub rows : List (List Cell)
    pub truncated : Bool
    pub error : Option Failure

  -- `maxRows >= 0 && len(out) >= maxRows`
  abbrev pub full : ℤ → ℕ → Bool
  full (pos n) read = leb n read
  full (negsuc n) read = false

  -- The loop, with the columns and the rows read so far.
  unfoldable pub read_loop : ℤ → Option Failure → List Column → List (List Cell) → List Fetch → Read
  unfolding convert_row
  read_loop cap end cols out [] = record {
    columns = cols;
    rows = out;
    truncated = false;
    error = end;
  }
  read_loop cap end cols out (bad_row e ∷ rest) =
      if full cap (length out)
      then record { columns = cols; rows = out; truncated = true; error = end }
      else record { columns = cols; rows = out; truncated = false; error = some e }
  read_loop cap end cols out (row vs ∷ rest) =
      let r = convert_row cols vs in
      let later = read_loop cap end r.1 (out ++ r.0 ∷ []) rest in
      if full cap (length out)
      then record { columns = cols; rows = out; truncated = true; error = end }
      else later

  unfoldable pub read_rows : ⦃u : Unicode⦄ → Fetched → ℤ → Read
  unfolding read_loop columns_of deduplicate_names
  read_rows f cap = elim f.column_error [
    | some e ↦ record { columns = []; rows = []; truncated = false; error = some e }
    | none ↦ read_loop cap f.end_error (deduplicate_names (columns_of f.names f.types)) [] f.fetches
  ]
