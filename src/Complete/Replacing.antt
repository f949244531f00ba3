-- ===== src/Complete/Replacing.antt =====
-- core/dbcore/complete.go: what the editor replaces is the word before the cursor.
use db_crawler.Engine.{Engine}
use db_crawler.Prelude.{ℕ, ◌≡◌, Bool, true, false, [], ◌∷◌, ◌++◌, reverse, All}
use db_crawler.Scan.{is_ident_rune}
use db_crawler.Text.{Text, Unicode}

-- The text does not start with a rune of this kind.
abbrev pub StopsAt : (ℕ → Bool) → Text → Type 0
StopsAt p [] = Unit
StopsAt p (c ∷ s) = p c ≡ false

module _ ⦃u : Unicode⦄ where
  -- The word ends the text, and is as long as it can be.
  abbrev pub EndsWord : Text → Text × Text → Type 0
  EndsWord before (word, head) =
      (head ++ word ≡ before)
      × All (λ (c : ℕ). is_ident_rune c ≡ true) word
      × StopsAt is_ident_rune (reverse head)
