-- ===== src/Classify/Words.antt =====
-- core/dbcore/sqltext.go: `scanKeywords` and `containsWord`.
-- A round of the scan shortens the text, so its length is enough fuel; so for `containsWord`.
use db_crawler.Prelude.{
  ℕ, zero, suc, Bool, true, false, not, ◌&&◌, ◌||◌, List, [], ◌∷◌, Option, none, some, ◌==◌,
  if◌then◌else◌, length,
}
use db_crawler.Scan.{
  next_is, skip_quoted, skip_until, skip_line_comment, skip_block_comment, skip_dollar_quoted,
  is_ident_rune,
}
use db_crawler.Text.{Text, Unicode, is_letter, span, cut, to_upper, utf8}

-- The word that a round found, if any, in front of those of the later rounds.
abbrev pub found_then : Option Text → List Text → List Text
found_then none ws = ws
found_then (some w) ws = w ∷ ws

-- The last byte of a text that ends in `prev`.
abbrev last_byte : Option ℕ → Text → Option ℕ
last_byte prev [] = prev
last_byte prev (c ∷ s) = last_byte (some c) s

module _ ⦃u : Unicode⦄ where
  -- One round of the switch, at `c ∷ s`.
  unfoldable pub keyword_step : ℕ → Text → Text × Option Text
  keyword_step c s =
      if c == b'\''
      then (skip_quoted b'\'' (c ∷ s), none)
      else if c == b'"'
      then (skip_quoted b'"' (c ∷ s), none)
      else if c == b'`'
      then (skip_quoted b'`' (c ∷ s), none)
      else if c == b'['
      then (skip_until b']' s, none)
      else if c == b'-' && next_is b'-' s
      then (skip_line_comment (c ∷ s), none)
      else if c == b'/' && next_is b'*' s
      then (skip_block_comment (c ∷ s), none)
      else if c == b'$'
      then (elim (skip_dollar_quoted (c ∷ s)) [ none ↦ s | some next ↦ next ], none)
      else if is_letter c || c == b'_'
      then (let r = span is_ident_rune (c ∷ s) in (r.1, some (to_upper r.0)))
      else (s, none)

  unfoldable pub keyword_loop : ℕ → Text → List Text
  keyword_loop fuel [] = []
  keyword_loop zero (c ∷ s) = []
  keyword_loop (suc fuel) (c ∷ s) =
      let (next, found) = keyword_step c s in found_then found (keyword_loop fuel next)

  unfoldable pub scan_keywords : Text → List Text
  unfolding keyword_loop keyword_step is_letter span is_ident_rune to_upper
  scan_keywords sql = keyword_loop (length sql) sql

  -- `j == 0 || !isIdentRune(rune(upper[j-1]))` and its mirror image
  boundary : Option ℕ → Bool
  unfolding is_ident_rune
  boundary none = true
  boundary (some c) = not (is_ident_rune c)

  abbrev first_byte : Text → Option ℕ
  first_byte [] = none
  first_byte (c ∷ s) = some c

  -- On the bytes from i on, behind the byte `prev`.
  word_loop : ℕ → Text → Option ℕ → Text → Bool
  unfolding boundary cut
  word_loop zero word prev s = false
  word_loop (suc fuel) word prev s = elim (cut word s) [
    | none ↦ false
    | some (before, after) ↦
        elim (boundary (last_byte prev before) && boundary (first_byte after)) [
          | true ↦ true
          | false ↦ word_loop fuel word (last_byte prev word) after
        ]
  ]

  unfoldable pub contains_word : Text → Text → Bool
  unfolding word_loop utf8
  contains_word upper word =
      let bytes = utf8 upper in word_loop (suc (length bytes)) (utf8 word) none bytes
