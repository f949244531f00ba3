-- ===== src/Introspect.antt =====
-- core/dbcore/introspect.go: what the catalog rows of a table are folded into, and the SQL that
-- is built from it. The catalog queries are in Catalog.
pub mod Steps
pub mod Grouping
pub mod Keys
use db_crawler.Dsn.{Config}
use db_crawler.Engine.{Engine, is_sqlserver, quote_identifier, qualify}
use db_crawler.Prelude.{
  ℕ, Bool, true, false, not, List, [], ◌∷◌, ◌++◌, Option, none, some, if◌then◌else◌, map,
}
use db_crawler.Prelude.Int.{ℤ, exceeds, to_nat}
use db_crawler.Session.{find, put}
use db_crawler.Text.{Text, codes, is_nil, itoa, join, one_of}

-- The kind is the field `Type`.
pub record TableInfo : Type 0 where
  pub schema : Text
  pub name : Text
  pub kind : Text
  pub row_estimate : Option ℤ
  pub comment : Text

pub record ColumnInfo : Type 0 where
  pub name : Text
  pub data_type : Text
  pub nullable : Bool
  pub default_value : Option Text
  pub is_primary_key : Bool
  pub is_auto_incr : Bool
  pub position : ℤ
  pub comment : Text

pub record IndexInfo : Type 0 where
  pub name : Text
  pub columns : List Text
  pub unique : Bool
  pub primary : Bool

pub record ForeignKeyInfo : Type 0 where
  pub name : Text
  pub columns : List Text
  pub ref_schema : Text
  pub ref_table : Text
  pub ref_columns : List Text
  pub on_delete : Text
  pub on_update : Text

pub record TableDetail : Type 0 where
  pub schema : Text
  pub name : Text
  pub columns : List ColumnInfo
  pub indexes : List IndexInfo
  pub foreign_keys : List ForeignKeyInfo
  pub ddl : Text

-- The fold that both kinds of catalog rows go through: `order` holds the names as they come up,
-- the map one entry per name, which a row of that name adds to.
module _ {Row Info : Type 0} (name_of : Row → Text) (start : Row → Info)
    (add : Row → Info → Info) where
  -- The row's turn, from what the map holds under its name.
  abbrev pub grouped :
      Option Info → Row → List Text → List (Text × Info) → List Text × List (Text × Info)
  grouped (some i) r order by_name = (order, put (name_of r) (add r i) by_name)
  grouped none r order by_name =
      (order ++ name_of r ∷ [], put (name_of r) (add r (start r)) by_name)

  unfoldable pub group_step : Row → List Text × List (Text × Info) → List Text × List (Text × Info)
  group_step r (order, by_name) = grouped (find (name_of r) by_name) r order by_name

  unfoldable pub group_loop :
      List Row → List Text × List (Text × Info) → List Text × List (Text × Info)
  group_loop [] st = st
  group_loop (r ∷ rs) st = group_loop rs (group_step r st)

abbrev pub cons_both : {Info : Type 0} → Option Info → Option (List Info) → Option (List Info)
cons_both (some i) (some is) = some (i ∷ is)
cons_both _ _ = none

-- `*byName[name]` for each name; `none` is the panic on a nil pointer.
unfoldable pub collect : {Info : Type 0} → List Text → List (Text × Info) → Option (List Info)
collect [] by_name = some []
collect (k ∷ ks) by_name = cons_both (find k by_name) (collect ks by_name)

unfoldable pub group_rows :
    {Row Info : Type 0}
    → (Row → Text)
    → (Row → Info)
    → (Row → Info → Info)
    → List Row
    → Option (List Info)
group_rows name_of start add rows =
    let st = group_loop name_of start add rows ([], []) in collect st.0 st.1

pub record IndexRow : Type 0 where
  pub name : Text
  pub column : Text
  pub unique : Bool
  pub primary : Bool

unfoldable pub group_index_rows : List IndexRow → Option (List IndexInfo)
unfolding group_rows group_loop group_step collect
group_index_rows =
    group_rows (λ (r : IndexRow). r.name)
      (λ (r : IndexRow). record {
        name = r.name;
        columns = [];
        unique = r.unique;
        primary = r.primary;
      })
      (λ (r : IndexRow) (i : IndexInfo).
        if is_nil r.column then i else record i { columns = i.columns ++ r.column ∷ [] })

pub record FkRow : Type 0 where
  pub name : Text
  pub column : Text
  pub ref_schema : Text
  pub ref_table : Text
  pub ref_column : Text
  pub on_delete : Text
  pub on_update : Text

unfoldable pub group_foreign_key_rows : List FkRow → Option (List ForeignKeyInfo)
unfolding group_rows group_loop group_step collect
group_foreign_key_rows =
    group_rows (λ (r : FkRow). r.name)
      (λ (r : FkRow). record {
        name = r.name;
        columns = [];
        ref_schema = r.ref_schema;
        ref_table = r.ref_table;
        ref_columns = [];
        on_delete = r.on_delete;
        on_update = r.on_update;
      })
      (λ (r : FkRow) (i : ForeignKeyInfo). record i {
        columns = i.columns ++ r.column ∷ [];
        ref_columns = i.ref_columns ++ r.ref_column ∷ [];
      })

unfoldable pub quote_all : Engine → List Text → Text
unfolding quote_identifier join
quote_all e names = join (codes ", ") (map (quote_identifier e) names)

ddl_column : Engine → ColumnInfo → Text
unfolding quote_identifier
ddl_column e c =
    codes "    "
    ++ (quote_identifier e c.name
        ++ (b' '
            ∷ (c.data_type
                ++ ((if c.nullable then [] else codes " NOT NULL") ++ elim c.default_value [
                  | none ↦ []
                  | some d ↦ if is_nil d then [] else codes " DEFAULT " ++ d
                ]))))

ddl_keys : Engine → List ColumnInfo → List Text
ddl_keys e [] = []
ddl_keys e (c ∷ cs) =
    let rest = ddl_keys e cs in if c.is_primary_key then quote_identifier e c.name ∷ rest else rest

ddl_primary : List Text → List Text
ddl_primary [] = []
ddl_primary (k ∷ ks) = (codes "    PRIMARY KEY (" ++ (join (codes ", ") (k ∷ ks) ++ b')' ∷ [])) ∷ []

ddl_foreign_key : Engine → ForeignKeyInfo → Text
ddl_foreign_key e fk =
    codes "    CONSTRAINT "
    ++ (quote_identifier e fk.name
        ++ (codes " FOREIGN KEY ("
            ++ (quote_all e fk.columns
                ++ (codes ") REFERENCES "
                    ++ (qualify e fk.ref_schema fk.ref_table
                        ++ (codes " (" ++ (quote_all e fk.ref_columns ++ b')' ∷ [])))))))

ddl_indexes : Engine → TableDetail → List IndexInfo → Text
ddl_indexes e d [] = []
ddl_indexes e d (ix ∷ rest) =
    let later = ddl_indexes e d rest in
    if ix.primary
    then later
    else codes "\nCREATE "
      ++ ((if ix.unique then codes "UNIQUE " else [])
          ++ (codes "INDEX "
              ++ (quote_identifier e ix.name
                  ++ (codes " ON "
                      ++ (qualify e d.schema d.name
                          ++ (codes " ("
                              ++ (quote_all e ix.columns ++ (codes ");\n" ++ later))))))))

unfoldable pub render_ddl : Engine → TableDetail → Text
unfolding ddl_column ddl_keys ddl_primary ddl_foreign_key ddl_indexes quote_all qualify join
render_ddl e d =
    codes "CREATE TABLE "
    ++ (qualify e d.schema d.name
        ++ (codes " (\n"
            ++ (join (codes ",\n") (
                  map (ddl_column e) d.columns
                  ++ (ddl_primary (ddl_keys e d.columns) ++ map (ddl_foreign_key e) d.foreign_keys))
                ++ (codes "\n);\n" ++ ddl_indexes e d d.indexes))))

-- A limit that is not positive stands for the default of 500 rows.
unfoldable pub preview_sql : Engine → Text → Text → ℤ → Text
unfolding qualify itoa
preview_sql e schema table limit =
    let n = if exceeds limit 0 then to_nat limit else 500 in
    if is_sqlserver e
    then codes "SELECT TOP " ++ (itoa n ++ (codes " * FROM " ++ qualify e schema table))
    else codes "SELECT * FROM " ++ (qualify e schema table ++ (codes " LIMIT " ++ itoa n))

unfoldable pub count_sql : Engine → Text → Text → Text
unfolding qualify
count_sql e schema table = codes "SELECT COUNT(*) AS row_count FROM " ++ qualify e schema table

-- core/dbcore/routines.go
unfoldable pub is_routine : Text → Bool
is_routine kind = one_of kind ("function" ∷ "procedure" ∷ [])
