-- ===== src/Classify/Progress.antt =====
-- The scans of the classifier move forward in every round, so their fuel does not matter.
use db_crawler.Classify.Leading.{strip_step, strip_loop}
use db_crawler.Classify.Words.{keyword_step, keyword_loop, found_then}
use db_crawler.Prelude.{
  ℕ, zero, suc, ◌≤◌, ◌≡◌, refl, ap, Bool, true, false, ◌&&◌, ◌||◌, [], ◌∷◌, Option, none, some,
  arith, ◌==◌, if_rule, if_cases, length,
}
use db_crawler.Scan.{next_is, is_ident_rune}
use db_crawler.Scan.Suffix.{
  Suffix, here, Suffix-length, skip_quoted-Suffix, skip_until-Suffix, skip_line_comment-Suffix_tail,
  skip_block_comment-Suffix, dollar-Suffix, span-Suffix,
}
use db_crawler.Text.{span, Text, Unicode, is_space, is_letter, is_digit}

-- Where a round of `StripLeading` goes on, if it does.
abbrev pub Onward : Text → Option Text → Type 0
Onward s none = Unit
Onward s (some t) = Suffix t s

pub strip_step-Onward : (c : ℕ) (s : Text) → Onward s (strip_step c s)
unfolding strip_step
strip_step-Onward c s = if_rule (Onward s) (is_space c) here (
    if_cases (Onward s) (c == b'-' && next_is b'-' s)
      (λ h. skip_line_comment-Suffix_tail c s (ground arith))
      (λ _.
        if_rule (Onward s) (c == b'/' && next_is b'*' s) (skip_block_comment-Suffix c s)
          (if_rule (Onward s) (c == b'(') here tt)))

pub strip_step_space : (c : ℕ) (s : Text) → is_space c ≡ true → strip_step c s ≡ some s
unfolding strip_step
strip_step_space c s h = rw h

-- The loop of StripLeading ends: any two amounts of fuel that are at least the number of runes
-- left give the same rest.
pub strip_loop_fuel :
    (f g : ℕ) (s : Text) → length s ≤ f → length s ≤ g → strip_loop f s ≡ strip_loop g s
unfolding strip_loop
strip_loop_fuel f g [] p q = refl
strip_loop_fuel zero g (c ∷ s) p q = absurd (omega arith)
strip_loop_fuel (suc f) zero (c ∷ s) p q = absurd (omega arith)
strip_loop_fuel (suc f) (suc g) (c ∷ s) p q =
    go (strip_step c s) (strip_step-Onward c s) (λ t h. strip_loop_fuel f g t h)
  where
    go :
        (r : Option Text)
        → Onward s r
        → ((t : Text) → length t ≤ f → length t ≤ g → strip_loop f t ≡ strip_loop g t)
        → elim r [ none ↦ c ∷ s | some next ↦ strip_loop f next ]
          ≡ elim r [ none ↦ c ∷ s | some next ↦ strip_loop g next ]
    go none h k = refl
    go (some t) h k = let shorter = Suffix-length h in k t (omega arith) (omega arith)

one_more : (a b d : Bool) → (a || b) ≡ true → (b || a || d) ≡ true
one_more a b d h = ground arith

true-false : {b : Bool} → b ≡ true → b ≡ false → ⊥
true-false p q = cc

module _ ⦃u : Unicode⦄ where
  -- The rune at which a word starts belongs to the word.
  pub word_start : (c : ℕ) → (is_letter c || c == b'_') ≡ true → is_ident_rune c ≡ true
  unfolding is_ident_rune
  word_start c h = one_more (is_letter c) (c == b'_') (is_digit c) h

  pub keyword_step-Suffix : (c : ℕ) (s : Text) → Suffix (keyword_step c s).0 s
  unfolding keyword_step span
  keyword_step-Suffix c s = if_rule P (c == b'\'') (skip_quoted-Suffix b'\'' c s) (
      if_rule P (c == b'"') (skip_quoted-Suffix b'"' c s) (
        if_rule P (c == b'`') (skip_quoted-Suffix b'`' c s) (
          if_rule P (c == b'[') (skip_until-Suffix b']' s) (
            if_cases P (c == b'-' && next_is b'-' s)
              (λ h. skip_line_comment-Suffix_tail c s (ground arith))
              (λ _. if_rule P (c == b'/' && next_is b'*' s) (skip_block_comment-Suffix c s) (
                if_rule P (c == b'$') (dollar-Suffix c s) (
                  if_cases P (is_letter c || c == b'_')
                    (λ h.
                      if_cases (λ (r : Text × Text). Suffix r.1 s) (is_ident_rune c)
                        (λ _. span-Suffix is_ident_rune s)
                        (λ no. absurd (true-false (word_start c h) no)))
                    (λ _. here))))))))
    where
      P : Text × Option Text → Type 0
      P r = Suffix r.0 s

  -- The loop of scanKeywords ends: any two amounts of fuel that are at least the number of
  -- runes left give the same words.
  pub keyword_loop_fuel :
      (f g : ℕ) (s : Text) → length s ≤ f → length s ≤ g → keyword_loop f s ≡ keyword_loop g s
  unfolding keyword_loop
  keyword_loop_fuel f g [] p q = refl
  keyword_loop_fuel zero g (c ∷ s) p q = absurd (omega arith)
  keyword_loop_fuel (suc f) zero (c ∷ s) p q = absurd (omega arith)
  keyword_loop_fuel (suc f) (suc g) (c ∷ s) p q =
      let (next, found) = keyword_step c s in
      let shorter = Suffix-length (keyword_step-Suffix c s) in
      ap (found_then found) (keyword_loop_fuel f g next (omega arith) (omega arith))
