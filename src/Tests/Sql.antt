-- ===== src/Tests/Sql.antt =====
-- Runs of the splitter and the classifier, and the theorems on them at concrete buffers.
use db_crawler.Classify.Cte.{classify_hidden_write}
use db_crawler.Classify.Leading.{strip_loop, first_keyword, is_only_comments, strip_leading}
use db_crawler.Classify.{classify, is_read_only, dml}
use db_crawler.Engine.{sqlserver, is_sqlserver, postgresql, mysql}
use db_crawler.Prelude.{
  ℕ, List, ◌≤◌, if◌then◌else◌, ◌≡◌, refl, true, false, map, [], ◌∷◌, ◌++◌, inl, inr,
}
use db_crawler.Scan.Prose.{Prose, end, rune, is_plain}
use db_crawler.Scan.{is_ident_rune, skip_quoted, skip_block_comment}
use db_crawler.Split.Rounds.{Rounds, split_statements-Ends}
use db_crawler.Split.RoundTrip.{split_statements-script, script}
use db_crawler.Split.Tiling.{Tiles, split_statements-Tiles}
use db_crawler.Split.{
  Statement, split_statements, split_loop, split_step, is_go_separator, split_on_go_batches,
}
use db_crawler.Tests.Base.{plain}
use db_crawler.Text.{codes, trim_left, one_of, to_upper}

quotes :
    map (λ (s : Statement). s.text) (split_statements postgresql (codes "'a;';b"))
    ≡ codes "'a;';" ∷ codes "b" ∷ []
unfolding split_statements split_loop skip_quoted is_only_comments strip_leading strip_loop
    split_step
quotes = refl

leading_comment : is_read_only (codes "/* a */ (select 1)") ≡ true
unfolding is_read_only classify one_of first_keyword skip_block_comment
leading_comment = refl

batch_separator : is_go_separator (codes " go 12\t") ≡ true
unfolding is_go_separator
batch_separator = refl

split_statements-Tiles_example :
    Tiles
      (codes "SELECT 'a;b'; -- c\nSELECT 2")
      0
      (split_statements postgresql (codes "SELECT 'a;b'; -- c\nSELECT 2"))
split_statements-Tiles_example =
    split_statements-Tiles postgresql (codes "SELECT 'a;b'; -- c\nSELECT 2") refl

plain_text : Prose (codes " a b")
unfolding is_plain
plain_text = rune refl (rune refl (rune refl (rune refl end)))

split_statements-script_example :
    map
      (λ (st : Statement). st.text)
      (split_statements mysql (script (codes " a b" ∷ codes " a b" ∷ [])))
    ≡ map (λ s. trim_left s ++ b';' ∷ []) (codes " a b" ∷ codes " a b" ∷ [])
split_statements-script_example =
    split_statements-script mysql (codes " a b" ∷ codes " a b" ∷ []) refl
      (plain_text, (plain_text, tt))

cte : Prose (codes "with d as (")
unfolding is_plain
cte = rune refl (
    rune refl (
      rune refl (
        rune refl
          (rune refl (rune refl (rune refl (rune refl (rune refl (rune refl (rune refl end))))))))))

classify_hidden_write_example :
    (classify (codes "with d as ( delete from t) select 1") ≡ dml)
    × (is_read_only (codes "with d as ( delete from t) select 1") ≡ false)
unfolding is_ident_rune to_upper first_keyword
classify_hidden_write_example =
    classify_hidden_write (codes "with d as (") (codes "delete") (codes " from t) select 1") cte
      (refl, (refl, (refl, (refl, (refl, (refl, tt)))))) refl (inr (inr (inl refl))) refl

split_statements-Ends_example :
    (n : ℕ) × (out : List Statement) × Rounds sqlserver 7
      (codes "a;\nGO\nb")
      (codes "a;\nGO\nb")
      n
      out
    × (n ≤ 7)
    × (split_statements sqlserver (codes "a;\nGO\nb")
        ≡ (if is_sqlserver sqlserver then split_on_go_batches out else out))
split_statements-Ends_example = split_statements-Ends sqlserver (codes "a;\nGO\nb")

abbrev script_of_batches : Statement
script_of_batches = record { text = codes "a\nGo 2\nb\nc"; start = 0; end = 10 }
