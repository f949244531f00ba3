-- ===== src/Catalog/Driver.antt =====
-- What core/dbcore uses of database/sql for its catalog queries: the answer to a query, the loop
-- over its rows, and the conversions of `Scan`.
use db_crawler.Prelude.{
  ℕ, Bool, List, [], ◌∷◌, Option, none, some, ◌⊎◌, inl, inr, map, if◌then◌else◌,
}
use db_crawler.Prelude.Int.{ℤ}
use db_crawler.Protocol.{Cause, other_error}
use db_crawler.Text.{Text, codes, join}

-- A statement, by its lines.
unfoldable pub sql : List Prim.Native.String.String → Text
unfolding join
sql ls = join (codes "\n") (map codes ls)

-- How `Scan` converts a value of the driver; `none` is its error.
pub record Reading (V : Type 0) : Type 0 where
  pub is_null : V → Bool
  pub as_text : V → Option Text
  pub as_int : V → Option ℤ
  pub as_bool : V → Option Bool

-- The rows of a query: the values of each, or the error of `Scan` on it, such as that of a
-- cancelled context; and what `rows.Err()` says behind the last one.
pub record Fetched (V : Type 0) : Type 0 where
  pub fetches : List (List V ⊎ Cause)
  pub end_error : Option Cause

-- `QueryContext` and `QueryRowContext` on a database handle: the statement and its arguments. The
-- latter gives the first row, or the error, which with no rows is sql.ErrNoRows. The catalog
-- statements go through here, and are taken to change no state of the server.
pub record Driver (V World : Type 0) : Type 0 where
  pub query : World → ℕ → Text → List Text → Fetched V ⊎ Cause
  pub query_row : World → ℕ → Text → List Text → List V ⊎ Cause

-- The variables that `Scan` fills, from the left.
abbrev pub Scan : Type 0 → Type 0 → Type 0
Scan V A = List V → Option (A × List V)

infixl 5 ◌>>=◌
abbrev pub ◌>>=◌ : {V A B : Type 0} → Scan V A → (A → Scan V B) → Scan V B
◌>>=◌ p f vs = elim (p vs) [ none ↦ none | some (a, rest) ↦ f a rest ]

abbrev pub pure : {V A : Type 0} → A → Scan V A
pure a vs = some (a, vs)

abbrev pub column : {V A : Type 0} → (V → Option A) → Scan V A
column f [] = none
column f (v ∷ vs) = elim (f v) [ none ↦ none | some a ↦ some (a, vs) ]

module _ {V : Type 0} ⦃r : Reading V⦄ where
  abbrev pub text : Scan V Text
  text = column r.as_text

  abbrev pub integer : Scan V ℤ
  integer = column r.as_int

  abbrev pub boolean : Scan V Bool
  boolean = column r.as_bool

  -- sql.NullString and sql.NullInt64
  abbrev pub nullable : {A : Type 0} → (V → Option A) → V → Option (Option A)
  nullable f v =
      if r.is_null v then some none else elim (f v) [ none ↦ none | some a ↦ some (some a) ]

  abbrev pub null_text : Scan V (Option Text)
  null_text = column (nullable r.as_text)

  abbrev pub null_integer : Scan V (Option ℤ)
  null_integer = column (nullable r.as_int)

-- As many variables as there are columns.
abbrev pub whole : {V A : Type 0} → Option (A × List V) → Option A
whole none = none
whole (some (a, [])) = some a
whole (some (a, v ∷ vs)) = none

unfoldable pub kept : {A : Type 0} → Option A → List A ⊎ Cause → List A ⊎ Cause
kept none later = inr other_error
kept (some a) (inl rest) = inl (a ∷ rest)
kept (some a) (inr cause) = inr cause

-- `return out, rows.Err()`
unfoldable pub ended : {A : Type 0} → Option Cause → List A ⊎ Cause
ended none = inl []
ended (some cause) = inr cause

-- The loop `for rows.Next()`.
unfoldable pub scan_rows :
    {V A : Type 0} → Scan V A → List (List V ⊎ Cause) → Option Cause → List A ⊎ Cause
unfolding kept ended
scan_rows p [] end = ended end
scan_rows p (inr cause ∷ rest) end = inr cause
scan_rows p (inl vs ∷ rest) end = kept (whole (p vs)) (scan_rows p rest end)

unfoldable pub scanned : {V A : Type 0} → Scan V A → Fetched V ⊎ Cause → List A ⊎ Cause
unfolding scan_rows
scanned p (inl f) = scan_rows p f.fetches f.end_error
scanned p (inr cause) = inr cause

abbrev pub map_ok : {A B : Type 0} → (A → B) → A ⊎ Cause → B ⊎ Cause
map_ok f (inl a) = inl (f a)
map_ok f (inr cause) = inr cause

-- What `groupIndexRows` and `groupForeignKeyRows` return; `none` is the panic on a nil pointer.
abbrev pub grouped : {A : Type 0} → Option (List A) → List A
grouped none = []
grouped (some entries) = entries

-- What is taken where a text is NULL.
abbrev pub text_or : Text → Option Text → Text
text_or t none = t
text_or t (some s) = s
