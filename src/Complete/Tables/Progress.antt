-- ===== src/Complete/Tables/Progress.antt =====
-- core/dbcore/complete.go: the scan for names moves forward in every round.
use db_crawler.Classify.Progress.{word_start}
use db_crawler.Complete.Tables.{token_step, is_quote}
use db_crawler.Prelude.{
  ℕ, ◌≡◌, refl, Bool, true, false, ◌&&◌, ◌||◌, Option, arith, ◌==◌, if_rule, if_cases,
}
use db_crawler.Scan.Suffix.{
  Suffix, here, skip_quoted-Suffix, skip_line_comment-Suffix_tail, skip_block_comment-Suffix,
  span-Suffix,
}
use db_crawler.Scan.{next_is, is_ident_rune}
use db_crawler.Text.{span, Text, Unicode, is_letter}

-- A rune that starts a name is a rune of the name, for whatever makes a word's first rune one.
starts :
    (letter ident under dot a b c d : Bool)
    → ((letter || under) ≡ true → ident ≡ true)
    → (letter || under || a || b || c) ≡ true
    → (ident || dot || (a || b || d || c)) ≡ true
starts true ident under dot a b c d h k = rw (h refl) refl
starts false ident true dot a b c d h k = rw (h refl) refl
starts false ident false dot a b c d h k = ground arith

module _ ⦃u : Unicode⦄ where
  pub token_step-Suffix : (c : ℕ) (s : Text) → Suffix (token_step c s).0 s
  unfolding token_step span
  token_step-Suffix c s = if_rule P (c == b'\'') (skip_quoted-Suffix b'\'' c s) (
      if_cases P (c == b'-' && next_is b'-' s)
        (λ h. skip_line_comment-Suffix_tail c s (ground arith))
        (λ _. if_rule P (c == b'/' && next_is b'*' s) (skip_block_comment-Suffix c s) (
          if_cases P (is_letter c || c == b'_' || c == b'"' || c == b'[' || c == b'`')
            (λ h.
              if_cases (λ (r : Text × Text). Suffix r.1 s)
                (is_ident_rune c || c == b'.' || is_quote c)
                (λ _. span-Suffix (λ d. is_ident_rune d || d == b'.' || is_quote d) s)
                (λ no. absurd (
                  cc (
                    no,
                    starts (is_letter c) (is_ident_rune c) (c == b'_') (c == b'.') (c == b'"')
                        (c == b'[') (c == b'`') (c == b']') (word_start c) h,
                  ))))
            (λ _. here))))
    where
      P : Text × Option Text → Type 0
      P r = Suffix r.0 s
