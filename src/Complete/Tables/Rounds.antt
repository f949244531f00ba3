-- ===== src/Complete/Tables/Rounds.antt =====
-- core/dbcore/complete.go: the loop of `identifierSequence` as the source has it, without fuel.
use db_crawler.Complete.Tables.Progress.{token_step-Suffix}
use db_crawler.Complete.Tables.{token_step, token_loop, found_token, identifier_sequence}
use db_crawler.Prelude.{ℕ, zero, suc, ◌≤◌, List, [], ◌∷◌, arith, length}
use db_crawler.Scan.Suffix.{Suffix-length}
use db_crawler.Text.{Text, Unicode}

module _ ⦃u : Unicode⦄ where
  -- `for i < len(runes)`, from runes[i:]: the loop ends after so many rounds, with these names.
  -- A loop that goes on for ever has no derivation.
  pub data Rounds : Text → ℕ → List Text → Type 0 where
    ended : Rounds [] 0 []
    round :
        (c : ℕ) (s : Text) (n : ℕ) (out : List Text)
        → Rounds (token_step c s).0 n out
        → Rounds (c ∷ s) (suc n) (found_token (token_step c s).1 out)

  token_loop-Rounds :
      (fuel : ℕ) (s : Text)
      → length s ≤ fuel
      → (n : ℕ) × Rounds s n (token_loop fuel s) × (n ≤ length s)
  unfolding token_loop
  token_loop-Rounds fuel [] p = (0, ended, omega arith)
  token_loop-Rounds zero (c ∷ s) p = absurd (omega arith)
  token_loop-Rounds (suc fuel) (c ∷ s) p =
      let shorter = Suffix-length (token_step-Suffix c s) in
      let (n, rest, short) = token_loop-Rounds fuel (token_step c s).0 (omega arith) in
      (suc n, round c s n _ rest, omega arith)

  -- identifierSequence ends, for every statement: its loop, which goes on while runes are left
  -- and has no derivation in Rounds if it never stops, gets to the end of the statement after
  -- at most as many rounds as there are runes, with the names that identifierSequence gives.
  pub identifier_sequence-Ends :
      (statement : Text)
      → (n : ℕ) × Rounds statement n (identifier_sequence statement) × (n ≤ length statement)
  unfolding identifier_sequence
  identifier_sequence-Ends statement = token_loop-Rounds (length statement) statement (omega arith)
