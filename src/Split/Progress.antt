-- ===== src/Split/Progress.antt =====
-- The loop of `SplitStatements` moves forward in every round, so its fuel does not matter.
use db_crawler.Engine.{Engine, is_sqlserver, is_postgresql, is_mysql}
use db_crawler.Prelude.{
  ℕ, zero, suc, ◌≤◌, ◌≡◌, refl, ap, Bool, not, ◌&&◌, [], ◌∷◌, ◌++◌, arith, ◌==◌, if◌then◌else◌,
  if_rule, if_cases, length,
}
use db_crawler.Scan.{next_is}
use db_crawler.Scan.Suffix.{
  Suffix, here, Suffix-length, skip_quoted-Suffix, skip_until-Suffix, skip_line_comment-Suffix_tail,
  skip_block_comment-Suffix, dollar-Suffix,
}
use db_crawler.Split.{split_step, flush, split_loop}
use db_crawler.Text.{Text, Unicode}

module _ ⦃u : Unicode⦄ where
  -- Every round leaves at most what follows the rune it looked at.
  pub split_step-Suffix : (e : Engine) (c : ℕ) (s : Text) → Suffix (split_step e c s).0 s
  unfolding split_step
  split_step-Suffix e c s = if_rule P (c == b'\'') (skip_quoted-Suffix b'\'' c s) (
      if_rule P (c == b'"' && not (is_mysql e)) (skip_quoted-Suffix b'"' c s) (
        if_rule P (c == b'`' && is_mysql e) (skip_quoted-Suffix b'`' c s) (
          if_rule P (c == b'[' && is_sqlserver e) (skip_until-Suffix b']' s) (
            if_cases P (c == b'-' && next_is b'-' s)
              (λ h. skip_line_comment-Suffix_tail c s (ground arith))
              (λ _.
                if_cases P (c == b'#' && is_mysql e)
                  (λ h. skip_line_comment-Suffix_tail c s (ground arith))
                  (λ _.
                    if_rule P (c == b'/' && next_is b'*' s) (skip_block_comment-Suffix c s)
                      (if_rule P (c == b'$' && is_postgresql e) (dollar-Suffix c s) here)))))))
    where
      P : Text × Bool → Type 0
      P r = Suffix r.0 s

  -- Fuel of at least the number of runes left does not matter.
  pub split_loop_fuel :
      (f g : ℕ) (e : Engine) (total : ℕ) (from s : Text)
      → length s ≤ f
      → length s ≤ g
      → split_loop f e total from s ≡ split_loop g e total from s
  unfolding split_loop
  split_loop_fuel f g e total from [] p q = refl
  split_loop_fuel zero g e total from (c ∷ s) p q = absurd (omega arith)
  split_loop_fuel (suc f) zero e total from (c ∷ s) p q = absurd (omega arith)
  split_loop_fuel (suc f) (suc g) e total from (c ∷ s) p q =
      let (next, separator) = split_step e c s in
      let shorter = Suffix-length (split_step-Suffix e c s) in
      ap (◌++◌ (if separator then flush total from next else [])) (
        split_loop_fuel f g e total (if separator then next else from) next (omega arith)
          (omega arith))
