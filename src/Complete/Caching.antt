-- ===== src/Complete/Caching.antt =====
-- core/dbcore/complete.go: the catalog is asked for once.
use db_crawler.Complete.{Answers, Catalog, columns_for, column_key, table_list, or_else}
use db_crawler.Engine.{Engine}
use db_crawler.Introspect.{ColumnInfo}
use db_crawler.Prelude.{
  ◌≡◌, refl, ap, ◌∙◌, List, [], Option, none, some, inl, inr, Option-cases, Bool-cases,
}
use db_crawler.Session.Maps.{find-put, text_eq_refl}
use db_crawler.Session.{find, put}
use db_crawler.Text.{Text, Unicode}

module _ ⦃u : Unicode⦄ where
  known :
      (a : Answers) (c : Catalog) (schema table : Text) {cols : List ColumnInfo}
      → find (column_key schema table) c.columns ≡ some cols
      → columns_for a c schema table ≡ (c, cols)
  unfolding columns_for
  known a c schema table e =
      ap
        (λ (o : Option (List ColumnInfo)). elim o as (λ _. Catalog × List ColumnInfo) [
          | some cached ↦ (c, cached)
          | none ↦ (
            record c {
              columns =
                  put (column_key schema table) (or_else (a.columns schema table) []) c.columns;
            },
            or_else (a.columns schema table) [],
          )
        ])
        e

  unknown :
      (a : Answers) (c : Catalog) (schema table : Text)
      → find (column_key schema table) c.columns ≡ none
      → columns_for a c schema table ≡ (
        record c {
          columns = put (column_key schema table) (or_else (a.columns schema table) []) c.columns;
        },
        or_else (a.columns schema table) [],
      )
  unfolding columns_for
  unknown a c schema table e =
      ap
        (λ (o : Option (List ColumnInfo)). elim o as (λ _. Catalog × List ColumnInfo) [
          | some cached ↦ (c, cached)
          | none ↦ (
            record c {
              columns =
                  put (column_key schema table) (or_else (a.columns schema table) []) c.columns;
            },
            or_else (a.columns schema table) [],
          )
        ])
        e

  -- A table's columns are asked for once: behind a call of columnsFor, another one for the
  -- same schema and table gives the same columns and leaves the catalog as it is, whatever the
  -- server would answer by then, also where the first answer was an error.
  pub columns_for_twice :
      (a b : Answers) (c : Catalog) (schema table : Text)
      → columns_for b (columns_for a c schema table).0 schema table ≡ columns_for a c schema table
  columns_for_twice a b c schema table =
      elim (Option-cases (find (column_key schema table) c.columns)) [
        | inl e ↦ rw (unknown a c schema table e) (
            known b _ schema table (
              find-put (column_key schema table) (column_key schema table) _ c.columns
              ∙ rw (text_eq_refl (column_key schema table)) refl))
        | inr (cols, e) ↦ rw (known a c schema table e) (known b c schema table e)
      ]

-- The tables are asked for once: behind a call of tableList another one gives the same tables
-- and leaves the catalog as it is, whatever the server would answer by then, also where the
-- first answer was an error.
pub table_list_twice :
    (e : Engine) (a b : Answers) (c : Catalog)
    → table_list e b (table_list e a c).0 ≡ table_list e a c
unfolding table_list
table_list_twice e a b c = elim (Bool-cases c.fetched) [ inl h ↦ rw h refl | inr h ↦ rw h refl ]
