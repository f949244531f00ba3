-- ===== src/Complete.antt =====
-- core/dbcore/complete.go: what could follow the cursor. The catalog that a session caches is
-- passed on; what the server answers is the parameter `Answers`, with `none` for an error.
pub mod Cursor
pub mod Order
pub mod Tables
pub mod Rank
pub mod Replacing
pub mod Caching
use db_crawler.Complete.Cursor.{
  CompletionContext, want_anything, want_table, want_column, word_before, qualifier_before,
  context_before, statement_around,
}
use db_crawler.Complete.Rank.{Suggestion, Completion, rank}
use db_crawler.Complete.Tables.{TableRef, table_references, unique_refs}
use db_crawler.Engine.{Engine, is_sqlserver, supports_schemas}
use db_crawler.Introspect.{TableInfo, ColumnInfo}
use db_crawler.Prelude.Int.{ℤ, to_nat}
use db_crawler.Prelude.{
  ℕ, Bool, true, false, not, List, [], ◌∷◌, ◌++◌, Option, none, some, ltb, if◌then◌else◌, length,
  take, map,
}
use db_crawler.Session.{find, put}
use db_crawler.Text.{Text, Unicode, codes, to_lower, is_nil, text_eq}

-- `s.Objects`, `s.columns` and `s.Schemas`
pub record Answers : Type 0 where
  pub objects : Text → Option (List TableInfo)
  pub columns : Text → Text → Option (List ColumnInfo)
  pub schemas : Option (List Text)

-- `schema` is `none` until `schemaOnce` has run.
pub record Catalog : Type 0 where
  pub tables : List TableInfo
  pub fetched : Bool
  pub columns : List (Text × List ColumnInfo)
  pub schema : Option Text

abbrev or_else {ℓ} : {A : Type ℓ} → Option A → A → A
or_else none x = x
or_else (some a) x = a

has_name : Text → List Text → Bool
unfolding text_eq
has_name k [] = false
has_name k (j ∷ js) = let rest = has_name k js in if text_eq j k then true else rest

first_or_none : List Text → Text
first_or_none [] = []
first_or_none (x ∷ xs) = x

-- The preferred schema if it is there, else the first one; none on an error.
choose_schema : Engine → Option (List Text) → Text
unfolding has_name first_or_none
choose_schema e none = []
choose_schema e (some names) =
    let preferred = if is_sqlserver e then codes "dbo" else codes "public" in
    if has_name preferred names then preferred else first_or_none names

unfoldable pub default_schema : Engine → Answers → Catalog → Catalog × Text
unfolding choose_schema supports_schemas
default_schema e a c = if not (supports_schemas e) then (c, []) else elim c.schema [
  | some s ↦ (c, s)
  | none ↦ (let s = choose_schema e a.schemas in (record c { schema = some s }, s))
]

unfoldable pub table_list : Engine → Answers → Catalog → Catalog × List TableInfo
unfolding default_schema
table_list e a c =
    let r = default_schema e a c in
    let tables = or_else (a.objects r.1) c.tables in
    if c.fetched then (c, c.tables) else (record r.0 { tables = tables; fetched = true }, tables)

module _ ⦃u : Unicode⦄ where
  column_key : Text → Text → Text
  unfolding to_lower
  column_key schema table = to_lower (schema ++ (b'.' ∷ table))

  unfoldable pub columns_for : Answers → Catalog → Text → Text → Catalog × List ColumnInfo
  unfolding column_key
  columns_for a c schema table = elim (find (column_key schema table) c.columns) [
    | some cached ↦ (c, cached)
    | none ↦
        (let cols = or_else (a.columns schema table) [] in
          (record c { columns = put (column_key schema table) cols c.columns }, cols))
  ]

  unfoldable pub table_suggestions : Engine → Answers → Catalog → Catalog × List Suggestion
  unfolding table_list
  table_suggestions e a c =
      let r = table_list e a c in
      (
        r.0,
        map
            (λ (t : TableInfo). record {
              text = t.name;
              kind = t.kind;
              detail = if is_nil t.schema then t.kind else t.schema;
            })
            r.1,
      )

  unfoldable pub column_suggestions :
      Engine → Answers → Catalog → TableRef → Catalog × List Suggestion
  unfolding columns_for default_schema
  column_suggestions e a c ref =
      let d = default_schema e a c in
      let at = if is_nil ref.schema then d else (c, ref.schema) in
      let r = columns_for a at.0 at.1 ref.name in
      (
        r.0,
        map
            (λ (col : ColumnInfo). record {
              text = col.name;
              kind = codes "column";
              detail = col.data_type;
            })
            r.1,
      )

  -- The columns of each reference in turn.
  columns_of_all : Engine → Answers → Catalog → List TableRef → Catalog × List Suggestion
  unfolding column_suggestions
  columns_of_all e a c [] = (c, [])
  columns_of_all e a c (ref ∷ refs) =
      let r = column_suggestions e a c ref in
      let later = columns_of_all e a r.0 refs in (later.0, r.1 ++ later.1)

  keyword_suggestions : List Suggestion
  keyword_suggestions =
      map (λ (k : Text). record { text = k; kind = codes "keyword"; detail = [] })
        (codes "SELECT"
          ∷ codes "FROM"
          ∷ codes "WHERE"
          ∷ codes "GROUP BY"
          ∷ codes "ORDER BY"
          ∷ codes "HAVING"
          ∷ codes "LIMIT"
          ∷ codes "INNER JOIN"
          ∷ codes "LEFT JOIN"
          ∷ codes "RIGHT JOIN"
          ∷ codes "FULL JOIN"
          ∷ codes "CROSS JOIN"
          ∷ codes "ON"
          ∷ codes "INSERT INTO"
          ∷ codes "VALUES"
          ∷ codes "UPDATE"
          ∷ codes "SET"
          ∷ codes "DELETE FROM"
          ∷ codes "AS"
          ∷ codes "AND"
          ∷ codes "OR"
          ∷ codes "NOT"
          ∷ codes "NULL"
          ∷ codes "IS NULL"
          ∷ codes "IS NOT NULL"
          ∷ codes "IN"
          ∷ codes "BETWEEN"
          ∷ codes "LIKE"
          ∷ codes "DISTINCT"
          ∷ codes "COUNT(*)"
          ∷ codes "SUM("
          ∷ codes "AVG("
          ∷ codes "MIN("
          ∷ codes "MAX("
          ∷ codes "CASE"
          ∷ codes "WHEN"
          ∷ codes "THEN"
          ∷ codes "ELSE"
          ∷ codes "END"
          ∷ codes "UNION"
          ∷ codes "UNION ALL"
          ∷ codes "WITH"
          ∷ codes "EXISTS"
          ∷ codes "ASC"
          ∷ codes "DESC"
          ∷ codes "TOP"
          ∷ codes "OFFSET"
          ∷ codes "FETCH NEXT"
          ∷ [])

  -- By the context before the word.
  unfoldable pub suggestions_for :
      Engine
      → Answers
      → Catalog
      → CompletionContext
      → List (Text × TableRef)
      → Catalog × List Suggestion
  unfolding table_suggestions columns_of_all unique_refs keyword_suggestions
  suggestions_for e a c want_table refs = table_suggestions e a c
  suggestions_for e a c want_column refs =
      let cols = columns_of_all e a c (unique_refs refs) in
      let tables = table_suggestions e a cols.0 in
      (tables.0, cols.1 ++ (tables.1 ++ keyword_suggestions))
  suggestions_for e a c want_anything refs =
      let tables = table_suggestions e a c in (tables.0, keyword_suggestions ++ tables.1)

  -- The cursor, brought into the text.
  abbrev pub clamp : ℤ → ℕ → ℕ
  clamp cursor n = if ltb n (to_nat cursor) then n else to_nat cursor

  -- Behind a qualifier: the table that it stands for in the statement, or that it names.
  abbrev pub qualified_ref : Text → List (Text × TableRef) → TableRef
  qualified_ref qualifier refs =
      or_else (find (to_lower qualifier) refs) (record { schema = []; name = qualifier })

  unfoldable pub complete : Engine → Answers → Catalog → Text → ℤ → Catalog × Completion
  complete e a c sql cursor =
      let at = clamp cursor (length sql) in
      let (prefix, head) = word_before (take at sql) in
      let qualifier = qualifier_before head in
      let refs = table_references (statement_around e sql at) in
      let r =
        if not (is_nil qualifier)
        then column_suggestions e a c (qualified_ref qualifier refs)
        else suggestions_for e a c (context_before head) refs in
      (r.0, record { prefix = prefix; suggestions = rank prefix r.1 })
