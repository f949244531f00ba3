-- ===== src/Introspect/Keys.antt =====
-- core/dbcore/introspect.go: the indexes and the foreign keys of a table, described by the rows
-- of each name.
use db_crawler.Introspect.Grouping.{Collected, Collected-ext, group_rows_lem}
use db_crawler.Introspect.Steps.{entry, firsts}
use db_crawler.Introspect.{
  IndexRow, IndexInfo, FkRow, ForeignKeyInfo, group_index_rows, group_foreign_key_rows,
}
use db_crawler.Prelude.{
  ◌≡◌, refl, ap, sym, ◌∙◌, List, [], ◌∷◌, ◌++◌, Option, none, some, inl, inr, Bool-cases,
  if◌then◌else◌, map, append-nil, append_assoc,
}
use db_crawler.Text.{Text, text_eq, is_nil}

abbrev pub index_name : IndexRow → Text
index_name r = r.name

abbrev pub index_start : IndexRow → IndexInfo
index_start r = record { name = r.name; columns = []; unique = r.unique; primary = r.primary }

abbrev pub index_add : IndexRow → IndexInfo → IndexInfo
index_add r i = if is_nil r.column then i else record i { columns = i.columns ++ r.column ∷ [] }

-- The columns that the rows of a name carry, in their order.
abbrev pub index_columns : Text → List IndexRow → List Text
index_columns k [] = []
index_columns k (r ∷ rs) =
    let rest = index_columns k rs in
    if text_eq r.name k then (if is_nil r.column then rest else r.column ∷ rest) else rest

-- The index of a name: its flags are those of its first row.
abbrev pub index_of : Text → List IndexRow → Option IndexInfo
index_of k [] = none
index_of k (r ∷ rs) =
    let rest = index_of k rs in
    if text_eq r.name k
    then some record {
      name = r.name;
      columns = index_columns k (r ∷ rs);
      unique = r.unique;
      primary = r.primary;
    }
    else rest

abbrev pub index_more : IndexInfo → List Text → IndexInfo
index_more i cs = record i { columns = i.columns ++ cs }

index_more-nil : (i : IndexInfo) → index_more i [] ≡ i
index_more-nil i = ap (λ (cs : List Text). record i { columns = cs }) (append-nil i.columns)

index_more-add :
    (r : IndexRow) (i : IndexInfo) (cs : List Text)
    → index_more (index_add r i) cs ≡ index_more i (if is_nil r.column then cs else r.column ∷ cs)
index_more-add r i cs = elim (Bool-cases (is_nil r.column)) [
  | inl e ↦ rw e refl
  | inr e ↦ rw e (
      ap (λ (ds : List Text). record i { columns = ds })
        (append_assoc i.columns (r.column ∷ []) cs))
]

entry-index_more :
    (k : Text) (rows : List IndexRow) (i : IndexInfo)
    → entry index_name index_start index_add k rows (some i)
      ≡ some (index_more i (index_columns k rows))
entry-index_more k [] i = ap some (sym (index_more-nil i))
entry-index_more k (r ∷ rs) i = elim (Bool-cases (text_eq r.name k)) [
  | inl e ↦
      rw e
        (entry-index_more k rs (index_add r i) ∙ ap some (index_more-add r i (index_columns k rs)))
  | inr e ↦ rw e (entry-index_more k rs i)
]

entry-index_of :
    (k : Text) (rows : List IndexRow)
    → entry index_name index_start index_add k rows none ≡ index_of k rows
entry-index_of k [] = refl
entry-index_of k (r ∷ rs) = elim (Bool-cases (text_eq r.name k)) [
  | inl e ↦ rw e (
      entry-index_more k rs (index_add r (index_start r))
      ∙ ap some (index_more-add r (index_start r) (index_columns k rs)))
  | inr e ↦ rw e (entry-index_of k rs)
]

-- groupIndexRows never dereferences a missing entry, and yields one index for each name, in
-- the order in which the names first come up: its flags are those of the first row of the
-- name, its columns the non-empty columns of all rows of the name in their order, wherever
-- they stand among the rows of other indexes.
pub group_index_rows_lem :
    (rows : List IndexRow)
    → (is : List IndexInfo) × (group_index_rows rows ≡ some is)
      × Collected index_name index_start index_add
          (λ (k : Text). index_of k rows)
          (firsts index_name index_start index_add [] rows)
          is
unfolding group_index_rows
group_index_rows_lem rows =
    let got = group_rows_lem index_name index_start index_add rows in
    (
      got.0,
      got.1,
      Collected-ext index_name index_start index_add _ _ (λ k. entry-index_of k rows) _ got.0 got.2,
    )

abbrev pub fk_name : FkRow → Text
fk_name r = r.name

abbrev pub fk_start : FkRow → ForeignKeyInfo
fk_start r = record {
  name = r.name;
  columns = [];
  ref_schema = r.ref_schema;
  ref_table = r.ref_table;
  ref_columns = [];
  on_delete = r.on_delete;
  on_update = r.on_update;
}

abbrev pub fk_add : FkRow → ForeignKeyInfo → ForeignKeyInfo
fk_add r i = record i {
  columns = i.columns ++ r.column ∷ [];
  ref_columns = i.ref_columns ++ r.ref_column ∷ [];
}

-- The rows of a name, in their order.
abbrev pub fk_rows : Text → List FkRow → List FkRow
fk_rows k [] = []
fk_rows k (r ∷ rs) = let rest = fk_rows k rs in if text_eq r.name k then r ∷ rest else rest

abbrev pub fk_described : List FkRow → Option ForeignKeyInfo
fk_described [] = none
fk_described (r ∷ rs) = some record {
  name = r.name;
  columns = map (λ (q : FkRow). q.column) (r ∷ rs);
  ref_schema = r.ref_schema;
  ref_table = r.ref_table;
  ref_columns = map (λ (q : FkRow). q.ref_column) (r ∷ rs);
  on_delete = r.on_delete;
  on_update = r.on_update;
}

abbrev pub fk_more : ForeignKeyInfo → List FkRow → ForeignKeyInfo
fk_more i rs = record i {
  columns = i.columns ++ map (λ (q : FkRow). q.column) rs;
  ref_columns = i.ref_columns ++ map (λ (q : FkRow). q.ref_column) rs;
}

fk_both :
    (i : ForeignKeyInfo) {a b c d : List Text}
    → a ≡ b
    → c ≡ d
    → ◌≡◌ {A = ForeignKeyInfo}
        (record i { columns = a; ref_columns = c })
        (record i { columns = b; ref_columns = d })
fk_both i p q = cc (p, q)

entry-fk_more :
    (k : Text) (rows : List FkRow) (i : ForeignKeyInfo)
    → entry fk_name fk_start fk_add k rows (some i) ≡ some (fk_more i (fk_rows k rows))
entry-fk_more k [] i = ap some (sym (fk_both i (append-nil i.columns) (append-nil i.ref_columns)))
entry-fk_more k (r ∷ rs) i = elim (Bool-cases (text_eq r.name k)) [
  | inl e ↦ rw e (
      entry-fk_more k rs (fk_add r i)
      ∙ ap some (
          fk_both i (append_assoc i.columns (r.column ∷ []) _)
            (append_assoc i.ref_columns (r.ref_column ∷ []) _)))
  | inr e ↦ rw e (entry-fk_more k rs i)
]

entry-fk_described :
    (k : Text) (rows : List FkRow)
    → entry fk_name fk_start fk_add k rows none ≡ fk_described (fk_rows k rows)
entry-fk_described k [] = refl
entry-fk_described k (r ∷ rs) = elim (Bool-cases (text_eq r.name k)) [
  | inl e ↦ rw e (entry-fk_more k rs (fk_add r (fk_start r)))
  | inr e ↦ rw e (entry-fk_described k rs)
]

-- groupForeignKeyRows never dereferences a missing entry, and yields one foreign key for each
-- name, in the order in which the names first come up: target and actions are those of the
-- first row of the name, and the columns and referenced columns are those of all its rows,
-- paired in their order.
pub group_foreign_key_rows_lem :
    (rows : List FkRow)
    → (is : List ForeignKeyInfo) × (group_foreign_key_rows rows ≡ some is)
      × Collected fk_name fk_start fk_add
          (λ (k : Text). fk_described (fk_rows k rows))
          (firsts fk_name fk_start fk_add [] rows)
          is
unfolding group_foreign_key_rows
group_foreign_key_rows_lem rows =
    let got = group_rows_lem fk_name fk_start fk_add rows in
    (
      got.0,
      got.1,
      Collected-ext fk_name fk_start fk_add _ _ (λ k. entry-fk_described k rows) _ got.0 got.2,
    )
