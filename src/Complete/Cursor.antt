-- ===== src/Complete/Cursor.antt =====
-- core/dbcore/complete.go: what stands before the cursor. Where the source counts an index down,
-- the model reads the text before that index backwards.
use db_crawler.Classify.Words.{scan_keywords}
use db_crawler.Engine.{Engine}
use db_crawler.Prelude.{
  ℕ, ◌-◌, ◌&&◌, List, [], ◌∷◌, leb, ◌==◌, if◌then◌else◌, length, drop, reverse,
}
use db_crawler.Scan.{is_ident_rune}
use db_crawler.Split.{Statement, split_statements}
use db_crawler.Text.{Text, Unicode, one_of, span}

pub data CompletionContext : Type 0 where
  want_anything want_table want_column : CompletionContext

-- The kind of the nearest word that decides.
context_of : List Text → CompletionContext
unfolding one_of
context_of [] = want_anything
context_of (w ∷ ws) =
    let rest = context_of ws in
    if one_of w ("FROM" ∷ "JOIN" ∷ "INTO" ∷ "UPDATE" ∷ "TABLE" ∷ "DESCRIBE" ∷ "DESC" ∷ [])
    then want_table
    else if one_of w
        ("SELECT" ∷ "WHERE" ∷ "AND" ∷ "OR" ∷ "ON" ∷ "BY" ∷ "HAVING" ∷ "SET" ∷ "VALUES" ∷ [])
    then want_column
    else rest

-- The statement with the cursor between its offsets.
around : ℕ → Text → List Statement → Text
around cursor sql [] = sql
around cursor sql (st ∷ rest) =
    let later = around cursor sql rest in
    if leb st.start cursor && leb cursor st.end then st.text else later

module _ ⦃u : Unicode⦄ where
  -- From the text before the cursor: the word and the text before the word, whose length is the
  -- word's start.
  unfoldable pub word_before : Text → Text × Text
  unfolding span
  word_before before = let r = span is_ident_rune (reverse before) in (reverse r.0, reverse r.1)

  -- From the text before the word, backwards.
  qualifier_of : Text → Text
  unfolding span
  qualifier_of [] = []
  qualifier_of (c ∷ s) = if c == b'.' then reverse (span is_ident_rune s).0 else []

  unfoldable pub qualifier_before : Text → Text
  unfolding qualifier_of
  qualifier_before before = qualifier_of (reverse before)

  -- The last `n` words, nearest first.
  unfoldable pub last_words : Text → ℕ → List Text
  unfolding scan_keywords
  last_words before n = let all = scan_keywords before in reverse (drop (length all - n) all)

  unfoldable pub context_before : Text → CompletionContext
  unfolding context_of last_words
  context_before before = context_of (last_words before 3)

  unfoldable pub statement_around : Engine → Text → ℕ → Text
  unfolding around split_statements
  statement_around e sql cursor = around cursor sql (split_statements e sql)
