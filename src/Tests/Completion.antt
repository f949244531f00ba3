-- ===== src/Tests/Completion.antt =====
-- The theorems on completion at a small catalog.
use mathlib.Core.List.{Perm}
use db_crawler.Complete.Caching.{columns_for_twice}
use db_crawler.Complete.Order.{sort_by, seen_in}
use db_crawler.Complete.Rank.Offered.{Chosen, InOrder, rank_lem}
use db_crawler.Complete.Rank.{Suggestion, rank, ranks_before, score}
use db_crawler.Complete.Tables.Rounds.{Rounds, identifier_sequence-Ends}
use db_crawler.Complete.Tables.{table_references, identifier_sequence, reference_loop}
use db_crawler.Complete.{Answers, Catalog, columns_for}
use db_crawler.Introspect.{ColumnInfo}
use db_crawler.Prelude.Int.{pos}
use db_crawler.Prelude.{
  ℕ, ◌≤◌, ◌≡◌, refl, true, false, List, [], ◌∷◌, some, none, map, length, take,
}
use db_crawler.Tests.Base.{plain}
use db_crawler.Text.{Text, codes, to_lower}

abbrev total : ColumnInfo
total = record {
  name = codes "total";
  data_type = codes "INT";
  nullable = true;
  default_value = none;
  is_primary_key = false;
  is_auto_incr = false;
  position = pos 1;
  comment = [];
}

abbrev answers : Answers
answers = record {
  objects = λ schema. some (
      record {
        schema = schema;
        name = codes "orders";
        kind = codes "table";
        row_estimate = none;
        comment = [];
      }
      ∷ []);
  columns = λ schema table. some (total ∷ []);
  schemas = some (codes "public" ∷ []);
}

abbrev silent : Answers
silent = record { objects = λ schema. none; columns = λ schema table. none; schemas = none }

abbrev empty_catalog : Catalog
empty_catalog = record { tables = []; fetched = false; columns = []; schema = none }

columns_for_twice_example :
    columns_for silent
      (columns_for answers empty_catalog (codes "public") (codes "Orders")).0
      (codes "public")
      (codes "Orders")
    ≡ columns_for answers empty_catalog (codes "public") (codes "Orders")
columns_for_twice_example =
    columns_for_twice answers silent empty_catalog (codes "public") (codes "Orders")

abbrev offers : List Suggestion
offers =
    record { text = codes "TOP"; kind = codes "keyword"; detail = [] }
    ∷ record { text = codes "subtotal"; kind = codes "column"; detail = codes "INT" }
    ∷ record { text = codes "total"; kind = codes "column"; detail = codes "INT" }
    ∷ []

rank_lem_example :
    (found : List (Suggestion × ℕ)) × (ordered : List (Suggestion × ℕ)) × Chosen
      (to_lower (codes "To"))
      offers
      found
    × Perm ordered found
    × InOrder ordered
    × (rank (codes "To") offers ≡ map (λ (k : Suggestion × ℕ). k.0) (take 40 ordered))
rank_lem_example = rank_lem (codes "To") offers

identifier_sequence-Ends_example :
    (n : ℕ) × Rounds (codes "a.\"b\" -- c") n (identifier_sequence (codes "a.\"b\" -- c"))
    × (n ≤ length (codes "a.\"b\" -- c"))
identifier_sequence-Ends_example = identifier_sequence-Ends (codes "a.\"b\" -- c")

alias :
    table_references (codes "from s.o as x")
    ≡ (codes "o", record { schema = codes "s"; name = codes "o" })
      ∷ (codes "x", record { schema = codes "s"; name = codes "o" })
      ∷ []
unfolding table_references identifier_sequence reference_loop
alias = refl

names_first :
    map (λ (s : Suggestion). s.text) (rank (codes "To") offers)
    ≡ codes "total" ∷ codes "subtotal" ∷ codes "TOP" ∷ []
unfolding rank sort_by seen_in score ranks_before
names_first = refl
