-- ===== src/Classify/Leading.antt =====
-- core/dbcore/sqltext.go: `StripLeading`, `isOnlyComments` and `firstKeyword`.
-- A round of the loop of `StripLeading` shortens the text, so its length is enough fuel.
use db_crawler.Prelude.{
  ℕ, zero, suc, Bool, ◌&&◌, ◌||◌, [], ◌∷◌, Option, none, some, ◌==◌, if◌then◌else◌, length,
}
use db_crawler.Scan.{next_is, skip_line_comment, skip_block_comment}
use db_crawler.Text.{Text, Unicode, is_space, is_letter, is_nil, span, to_upper}

-- One round at `c ∷ s`: where to go on, or `none` if the statement starts here.
unfoldable pub strip_step : ℕ → Text → Option Text
unfolding is_space
strip_step c s =
    if is_space c
    then some s
    else if c == b'-' && next_is b'-' s
    then some (skip_line_comment (c ∷ s))
    else if c == b'/' && next_is b'*' s
    then some (skip_block_comment (c ∷ s))
    else if c == b'('
    then some s
    else none

unfoldable pub strip_loop : ℕ → Text → Text
strip_loop fuel [] = []
strip_loop zero (c ∷ s) = []
strip_loop (suc fuel) (c ∷ s) = elim (strip_step c s) [
  | none ↦ c ∷ s
  | some next ↦ strip_loop fuel next
]

unfoldable pub strip_leading : Text → Text
unfolding strip_loop strip_step
strip_leading sql = strip_loop (length sql) sql

unfoldable pub is_only_comments : Text → Bool
unfolding strip_leading
is_only_comments sql = is_nil (strip_leading sql)

module _ ⦃u : Unicode⦄ where
  unfoldable pub first_keyword : Text → Text
  unfolding strip_leading span to_upper is_letter
  first_keyword sql = to_upper (span (λ c. is_letter c || c == b'_') (strip_leading sql)).0
