-- ===== src/Catalog/Results.antt =====
-- core/dbcore/introspect.go, routines.go and protocol.go: what is made of the answers to the
-- catalog queries.
use db_crawler.Catalog.Driver.{Scan, whole}
use db_crawler.Catalog.Order.{sort_tables}
use db_crawler.Dsn.{is_blank}
use db_crawler.Engine.{Engine}
use db_crawler.Introspect.{
  TableInfo, ColumnInfo, IndexInfo, ForeignKeyInfo, TableDetail, render_ddl,
}
use db_crawler.Prelude.{List, [], ◌∷◌, ◌++◌, Option, none, some, ◌⊎◌, inl, inr, if◌then◌else◌}
use db_crawler.Protocol.{Cause, other_error}
use db_crawler.Text.{Text, codes, is_nil, cut, trim_space}

-- The texts that are not NULL.
unfoldable pub valid : List (Option Text) → List Text
valid [] = []
valid (none ∷ rest) = valid rest
valid (some t ∷ rest) = t ∷ valid rest

abbrev pub first : List Text → Text
first [] = []
first (t ∷ ts) = t

-- The error of an index or key query is dropped with what it read.
abbrev pub listed_or_none : {A : Type 0} → List A ⊎ Cause → List A
listed_or_none (inl rest) = rest
listed_or_none (inr cause) = []

-- The single variable of `queryString` and `serverVersion`.
abbrev pub one_value : {V A : Type 0} → Scan V A → List V ⊎ Cause → A ⊎ Cause
one_value p (inr cause) = inr cause
one_value p (inl vs) = elim (whole (p vs)) [ none ↦ inr other_error | some a ↦ inl a ]

-- A definition that is NULL or blank is an error.
unfoldable pub readable : Option Text ⊎ Cause → Text ⊎ Cause
unfolding is_blank
readable (inr cause) = inr cause
readable (inl none) = inr other_error
readable (inl (some t)) = if is_blank t then inr other_error else inl t

-- The first line of a banner, unless that is empty.
unfoldable pub banner : Text → Text
unfolding cut trim_space
banner v = elim (cut (codes "\n") v) [
  | none ↦ v
  | some (before, after) ↦ if is_nil before then v else trim_space before
]

-- `append` and `sortTables`, where the routines could be read.
unfoldable pub with_routines : List TableInfo → List TableInfo ⊎ Cause → List TableInfo
unfolding sort_tables
with_routines tables (inl routines) = sort_tables (tables ++ routines)
with_routines tables (inr cause) = sort_tables tables

unfoldable pub listing : List TableInfo ⊎ Cause → List TableInfo ⊎ Cause → List TableInfo ⊎ Cause
unfolding with_routines
listing (inr cause) routines = inr cause
listing (inl tables) routines = inl (with_routines tables routines)

-- What the columns of a table, its indexes and its keys are made into.
unfoldable pub detail_of :
    Engine
    → Text
    → Text
    → List ColumnInfo ⊎ Cause
    → List IndexInfo ⊎ Cause
    → List ForeignKeyInfo ⊎ Cause
    → TableDetail ⊎ Cause
unfolding render_ddl
detail_of e schema name (inr cause) ixs fks = inr cause
detail_of e schema name (inl []) ixs fks = inr other_error
detail_of e schema name (inl (c ∷ cs)) ixs fks =
    let d : TableDetail = record {
      schema = schema;
      name = name;
      columns = c ∷ cs;
      indexes = listed_or_none ixs;
      foreign_keys = listed_or_none fks;
      ddl = [];
    } in
    inl (record d { ddl = render_ddl e d })

abbrev pub text_or_empty : Text ⊎ Cause → Text
text_or_empty (inl t) = t
text_or_empty (inr cause) = []

abbrev pub right_or_none : {A : Type 0} → A ⊎ Cause → Option A
right_or_none (inl a) = some a
right_or_none (inr cause) = none
