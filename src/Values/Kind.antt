-- ===== src/Values/Kind.antt =====
-- core/dbcore/values.go: the kinds of columns, and `kindForDatabaseType`.
use Prim.Native.String.{String}
use db_crawler.Prelude.{Bool, false, ◌||◌, List, [], ◌∷◌, none, some, if◌then◌else◌}
use db_crawler.Text.{
  Text, Unicode, codes, one_of, is_nil, contains, cut, strip_prefix, to_upper, trim_space,
}

pub data ValueKind : Type 0 where
  string number bool datetime date time bytes json uuid unknown : ValueKind

-- One of a row of `strings.Contains(t, …)`.
contains_one : Text → List String → Bool
unfolding contains
contains_one t [] = false
contains_one t (s ∷ rest) = contains t (codes s) || contains_one t rest

-- `if i := strings.IndexByte(t, '('); i > 0 { t = t[:i] }`
before_paren : Text → Text
unfolding cut
before_paren t = elim (cut (codes "(") t) [
  | none ↦ t
  | some (before, after) ↦ if is_nil before then t else before
]

-- strings.TrimPrefix(t, "_")
without_underscore : Text → Text
unfolding strip_prefix
without_underscore t = elim (strip_prefix (codes "_") t) [ none ↦ t | some rest ↦ rest ]

unfoldable pub type_name : ⦃u : Unicode⦄ → Text → Text
unfolding to_upper trim_space before_paren without_underscore
type_name db_type = trim_space (without_underscore (before_paren (to_upper (trim_space db_type))))

-- The two switches, on the type's name.
unfoldable pub kind_of_name : Text → ValueKind
unfolding one_of contains_one
kind_of_name t =
    if one_of t ("BOOL" ∷ "BOOLEAN" ∷ "BIT" ∷ [])
    then bool
    else if one_of t ("UUID" ∷ "UNIQUEIDENTIFIER" ∷ "UNIQUEIDENTIFIER " ∷ [])
    then uuid
    else if one_of t ("JSON" ∷ "JSONB" ∷ [])
    then json
    else if one_of t ("DATE" ∷ [])
    then date
    else if one_of t ("TIME" ∷ "TIMETZ" ∷ "TIME WITH TIME ZONE" ∷ "TIME WITHOUT TIME ZONE" ∷ [])
    then time
    else if contains_one t ("TIMESTAMP" ∷ "DATETIME" ∷ [])
        || one_of t ("SMALLDATETIME" ∷ "DATETIMEOFFSET" ∷ [])
    then datetime
    else if contains_one t
          ("INT" ∷ "DECIMAL" ∷ "NUMERIC" ∷ "MONEY" ∷ "FLOAT" ∷ "DOUBLE" ∷ "REAL" ∷ [])
        || one_of t ("NUMBER" ∷ "SERIAL" ∷ "BIGSERIAL" ∷ "SMALLSERIAL" ∷ [])
    then number
    else if contains_one t ("BLOB" ∷ "BINARY" ∷ []) || one_of t ("BYTEA" ∷ "IMAGE" ∷ [])
    then bytes
    else if contains_one t ("CHAR" ∷ "TEXT" ∷ [])
        || one_of t ("XML" ∷ "CLOB" ∷ "ENUM" ∷ "SET" ∷ "NAME" ∷ "CITEXT" ∷ [])
    then string
    else if is_nil t
    then unknown
    else string

unfoldable pub kind_for_database_type : ⦃u : Unicode⦄ → Text → ValueKind
unfolding type_name kind_of_name
kind_for_database_type db_type = kind_of_name (type_name db_type)
