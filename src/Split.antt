-- ===== src/Split.antt =====
-- core/dbcore/sqltext.go: `SplitStatements` and its SQL Server batches.
-- The loop index i and the start of the statement are suffixes of the buffer (see Scan). Each
-- round of the loop shortens the suffix, so the length of the buffer is enough fuel.
pub mod Progress
pub mod Rounds
pub mod Plain
pub mod Batches
pub mod Reach
pub mod Tiling
pub mod RoundTrip
use db_crawler.Classify.Leading.{is_only_comments}
use db_crawler.Engine.{Engine, is_sqlserver, is_postgresql, is_mysql}
use db_crawler.Prelude.{
  ℕ, zero, suc, ◌-◌, Bool, false, not, ◌&&◌, List, [], ◌∷◌, ◌++◌, none, some, ◌==◌, if◌then◌else◌,
  length, take,
}
use db_crawler.Scan.{
  next_is, skip_quoted, skip_until, skip_line_comment, skip_block_comment, skip_dollar_quoted,
}
use db_crawler.Text.{
  Text, Unicode, codes, is_nil, trim_space, lines, join, fields, equal_fold, atoi_accepts,
}

pub record Statement : Type 0 where
  pub text : Text
  pub start : ℕ
  pub end : ℕ

module _ ⦃u : Unicode⦄ where
  -- One round of the switch, at `c ∷ s`: the suffix at the new index, and whether `c` is a
  -- separator, at which the statement before it is flushed.
  unfoldable pub split_step : Engine → ℕ → Text → Text × Bool
  split_step e c s =
      if c == b'\''
      then (skip_quoted b'\'' (c ∷ s), false)
      else if c == b'"' && not (is_mysql e)
      then (skip_quoted b'"' (c ∷ s), false)
      else if c == b'`' && is_mysql e
      then (skip_quoted b'`' (c ∷ s), false)
      else if c == b'[' && is_sqlserver e
      then (skip_until b']' s, false)
      else if c == b'-' && next_is b'-' s
      then (skip_line_comment (c ∷ s), false)
      else if c == b'#' && is_mysql e
      then (skip_line_comment (c ∷ s), false)
      else if c == b'/' && next_is b'*' s
      then (skip_block_comment (c ∷ s), false)
      else if c == b'$' && is_postgresql e
      then (elim (skip_dollar_quoted (c ∷ s)) [ none ↦ s | some next ↦ next ], false)
      else (s, c == b';')

  -- `flush` on runes[start:end], in a buffer of `total` runes: the statement, if it is one.
  unfoldable pub flush : ℕ → Text → Text → List Statement
  unfolding trim_space
  flush total from to =
      let text = trim_space (take (length from - length to) from) in
      if not (is_nil text) && not (is_only_comments text)
      then record { text = text; start = total - length from; end = total - length to } ∷ []
      else []

  unfoldable pub split_loop : ℕ → Engine → ℕ → Text → Text → List Statement
  split_loop fuel e total from [] = flush total from []
  split_loop zero e total from (c ∷ s) = []
  split_loop (suc fuel) e total from (c ∷ s) =
      let (next, separator) = split_step e c s in
      (if separator then flush total from next else [])
      ++ split_loop fuel e total (if separator then next else from) next

-- A word list that makes a line a batch separator.
go_fields : List Text → Bool
unfolding equal_fold atoi_accepts
go_fields [] = false
go_fields (f ∷ []) = equal_fold (codes "GO") f
go_fields (f ∷ n ∷ []) = equal_fold (codes "GO") f && atoi_accepts n
go_fields _ = false

unfoldable pub is_go_separator : Text → Bool
unfolding go_fields fields trim_space
is_go_separator line = go_fields (fields (trim_space line))

-- The lines read since the last separator, as a statement with the offsets of the whole.
unfoldable pub batch : Statement → List Text → List Statement
unfolding join trim_space
batch st buf =
    let joined = trim_space (join (b'\n' ∷ []) buf) in
    if is_nil joined then [] else record st { text = joined } ∷ []

batch_loop : Statement → List Text → List Text → List Statement
unfolding batch is_go_separator
batch_loop st buf [] = batch st buf
batch_loop st buf (line ∷ rest) =
    let go = is_go_separator line in
    (if go then batch st buf else []) ++ batch_loop st (if go then [] else buf ++ line ∷ []) rest

unfoldable pub split_on_go_batches : List Statement → List Statement
unfolding batch_loop lines
split_on_go_batches [] = []
split_on_go_batches (st ∷ rest) = batch_loop st [] (lines st.text) ++ split_on_go_batches rest

module _ ⦃u : Unicode⦄ where
  unfoldable pub split_statements : Engine → Text → List Statement
  unfolding split_loop split_step flush split_on_go_batches
  split_statements e sql =
      let out = split_loop (length sql) e (length sql) sql sql in
      if is_sqlserver e then split_on_go_batches out else out
