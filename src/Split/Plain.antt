-- ===== src/Split/Plain.antt =====
-- Runes that the splitter passes over one at a time.
use db_crawler.Engine.{Engine}
use db_crawler.Prelude.{ℕ, ◌≡◌, true, false, ◌∷◌, ◌&&◌, arith, ◌==◌}
use db_crawler.Scan.{next_is, skip_line_comment, skip_block_comment}
use db_crawler.Scan.Prose.{is_plain}
use db_crawler.Split.{split_step}
use db_crawler.Text.{Text, Unicode}

module _ ⦃u : Unicode⦄ where
  pub split_step_plain :
      (e : Engine) (c : ℕ) (s : Text) → is_plain c ≡ true → split_step e c s ≡ (s, false)
  unfolding split_step is_plain
  split_step_plain e c s h = ground arith

  -- Only a semicolon separates, and what follows it starts the next statement.
  pub split_step_separator :
      (e : Engine) (c : ℕ) (s : Text)
      → (split_step e c s).1 ≡ true
      → (c ≡ b';') × ((split_step e c s).0 ≡ s)
  unfolding split_step
  split_step_separator e c s h = ground arith

  pub split_step_dashes :
      (e : Engine) (c : ℕ) (s : Text)
      → (c == b'-' && next_is b'-' s) ≡ true
      → split_step e c s ≡ (skip_line_comment (c ∷ s), false)
  unfolding split_step
  split_step_dashes e c s h = ground arith

  pub split_step_block :
      (e : Engine) (c : ℕ) (s : Text)
      → (c == b'/' && next_is b'*' s) ≡ true
      → split_step e c s ≡ (skip_block_comment (c ∷ s), false)
  unfolding split_step
  split_step_block e c s h = ground arith
