-- ===== src/Classify.antt =====
-- core/dbcore/sqltext.go: what a statement does, by its keywords, and whether it only reads.
pub mod Leading
pub mod Words
pub mod Progress
pub mod ReadOnly
pub mod Found
pub mod Cte
use Leading.{first_keyword}
use Words.{scan_keywords}
use Prim.Native.String.{String}
use db_crawler.Prelude.{Bool, true, false, not, List, [], ◌∷◌, if◌then◌else◌}
use db_crawler.Text.{Text, Unicode, codes, one_of, contains}

pub data StatementKind : Type 0 where
  select dml ddl tx utility other : StatementKind

-- The cases of the switches, in the source's order.
abbrev pub select_words : List String
select_words = "SELECT" ∷ "TABLE" ∷ "VALUES" ∷ []

abbrev pub dml_words : List String
dml_words =
    "INSERT" ∷ "UPDATE" ∷ "DELETE" ∷ "MERGE" ∷ "REPLACE" ∷ "UPSERT" ∷ "COPY" ∷ "LOAD" ∷ "CALL"
    ∷ "EXEC" ∷ "EXECUTE" ∷ []

abbrev pub ddl_words : List String
ddl_words =
    "CREATE" ∷ "ALTER" ∷ "DROP" ∷ "TRUNCATE" ∷ "RENAME" ∷ "COMMENT" ∷ "GRANT" ∷ "REVOKE" ∷ "VACUUM"
    ∷ "REINDEX" ∷ "ANALYZE" ∷ "CLUSTER" ∷ []

abbrev pub tx_words : List String
tx_words = "BEGIN" ∷ "START" ∷ "COMMIT" ∷ "ROLLBACK" ∷ "SAVEPOINT" ∷ "RELEASE" ∷ "END" ∷ []

abbrev pub utility_words : List String
utility_words =
    "SET" ∷ "USE" ∷ "SHOW" ∷ "EXPLAIN" ∷ "DESCRIBE" ∷ "DESC" ∷ "PRAGMA" ∷ "RESET" ∷ "DECLARE"
    ∷ "PRINT" ∷ "CHECKPOINT" ∷ []

abbrev pub write_words : List String
write_words = "INSERT" ∷ "UPDATE" ∷ "DELETE" ∷ "MERGE" ∷ []

abbrev pub read_words : List String
read_words = "SHOW" ∷ "EXPLAIN" ∷ "DESCRIBE" ∷ "DESC" ∷ "PRINT" ∷ []

-- Whether a word of the list is one of the `case`.
unfoldable pub any_of : List Text → List String → Bool
unfolding one_of
any_of [] cases = false
any_of (w ∷ ws) cases = let rest = any_of ws cases in if one_of w cases then true else rest

module _ ⦃u : Unicode⦄ where
  unfoldable pub classify_cte : Text → StatementKind
  classify_cte sql = if any_of (scan_keywords sql) write_words then dml else select

  unfoldable pub classify : Text → StatementKind
  classify sql =
      let word = first_keyword sql in
      if one_of word select_words
      then select
      else if one_of word ("WITH" ∷ [])
      then classify_cte sql
      else if one_of word dml_words
      then dml
      else if one_of word ddl_words
      then ddl
      else if one_of word tx_words
      then tx
      else if one_of word utility_words
      then utility
      else other

  -- The inner switch of `IsReadOnly`, on the keyword.
  unfoldable pub utility_reads : Text → Text → Bool
  utility_reads sql word =
      if one_of word read_words
      then true
      else if one_of word ("PRAGMA" ∷ [])
      then not (contains sql (codes "="))
      else false

  unfoldable pub is_read_only : Text → Bool
  is_read_only sql = elim (classify sql) [
    | select ↦ true
    | utility ↦ utility_reads sql (first_keyword sql)
    | _ ↦ false
  ]
