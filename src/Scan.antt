-- ===== src/Scan.antt =====
-- core/dbcore/sqltext.go: the helpers that skip what cannot hold a keyword or a separator.
-- An index i into the runes r stands here as the suffix r[i:], so a helper that returns a new
-- index returns a shorter suffix; i is the length of r less that of the suffix.
pub mod Suffix
pub mod Truncate
pub mod Prose
use db_crawler.Prelude.{
  ℕ, ◌+◌, ◌-◌, Bool, false, not, ◌&&◌, ◌||◌, [], ◌∷◌, ◌++◌, Option, none, some, ◌==◌, if◌then◌else◌,
}
use db_crawler.Text.{Text, Unicode, is_letter, is_digit, span, cut}

-- `i+1 < len(r) && r[i+1] == d`, on r[i+1:]
abbrev pub next_is : ℕ → Text → Bool
next_is d [] = false
next_is d (c ∷ s) = c == d

-- The loop of `skipQuoted`, behind the opening quote.
unfoldable pub quoted_loop : ℕ → Text → Text
quoted_loop quote [] = []
quoted_loop quote (c ∷ []) = []
quoted_loop quote (c ∷ d ∷ s) =
    let past_two = quoted_loop quote s in
    let past_one = quoted_loop quote (d ∷ s) in
    if c == quote
    then (if d == quote then past_two else d ∷ s)
    else if c == b'\\'
    then past_two
    else past_one

unfoldable pub skip_quoted : ℕ → Text → Text
unfolding quoted_loop
skip_quoted quote [] = []
skip_quoted quote (_ ∷ s) = quoted_loop quote s

unfoldable pub skip_until : ℕ → Text → Text
skip_until end [] = []
skip_until end (c ∷ s) = let rest = skip_until end s in if c == end then s else rest

unfoldable pub skip_line_comment : Text → Text
skip_line_comment [] = []
skip_line_comment (c ∷ s) = let rest = skip_line_comment s in if c == b'\n' then c ∷ s else rest

-- The loop of `skipBlockComment`, with the nesting depth.
unfoldable pub block_loop : ℕ → Text → Text
block_loop depth [] = []
block_loop depth (c ∷ []) = []
block_loop depth (c ∷ d ∷ s) =
    let deeper = block_loop (depth + 1) s in
    let higher = block_loop (depth - 1) s in
    let past_one = block_loop depth (d ∷ s) in
    if c == b'/' && d == b'*'
    then deeper
    else if c == b'*' && d == b'/'
    then (if (depth - 1) == 0 then s else higher)
    else past_one

-- The first two runes are the opening.
unfoldable pub skip_block_comment : Text → Text
unfolding block_loop
skip_block_comment (c ∷ d ∷ s) = block_loop 1 s
skip_block_comment _ = []

module _ ⦃u : Unicode⦄ where
  unfoldable pub is_ident_rune : ℕ → Bool
  unfolding is_letter is_digit
  is_ident_rune c = c == b'_' || is_letter c || is_digit c

  -- What follows the dollar that ends the opening tag: the tag is `$` ++ name ++ `$`.
  dollar_body : Text → Text → Option Text
  unfolding cut
  dollar_body name [] = none
  dollar_body name (c ∷ body) =
      if not (c == b'$') then none else elim (cut (b'$' ∷ (name ++ b'$' ∷ [])) body) [
        | none ↦ some []
        | some (inside, after) ↦ some after
      ]

  -- On the suffix that begins with the dollar; `none` for `false`.
  unfoldable pub skip_dollar_quoted : Text → Option Text
  unfolding dollar_body span is_ident_rune
  skip_dollar_quoted [] = none
  skip_dollar_quoted (_ ∷ s) = let r = span is_ident_rune s in dollar_body r.0 r.1
