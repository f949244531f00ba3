-- ===== src/Split/Rounds.antt =====
-- core/dbcore/sqltext.go: the loop of `SplitStatements` as the source has it, without fuel.
use db_crawler.Engine.{Engine, is_sqlserver}
use db_crawler.Prelude.{
  ℕ, zero, suc, ◌≤◌, ◌≡◌, refl, List, [], ◌∷◌, ◌++◌, arith, if◌then◌else◌, length,
}
use db_crawler.Scan.Suffix.{Suffix-length}
use db_crawler.Split.Progress.{split_step-Suffix}
use db_crawler.Split.{
  Statement, split_step, flush, split_loop, split_on_go_batches, split_statements,
}
use db_crawler.Text.{Text, Unicode}

module _ ⦃u : Unicode⦄ where
  -- `for i < len(runes)`, from runes[start:] and runes[i:]: the loop ends after so many rounds,
  -- with these statements. A loop that goes on for ever has no derivation.
  pub data Rounds (e : Engine) (total : ℕ) : Text → Text → ℕ → List Statement → Type 0 where
    ended : (from : Text) → Rounds e total from [] 0 (flush total from [])
    round :
        (from : Text) (c : ℕ) (s : Text) (n : ℕ) (out : List Statement)
        → Rounds e total
            (if (split_step e c s).1 then (split_step e c s).0 else from)
            (split_step e c s).0
            n
            out
        → Rounds e total from
            (c ∷ s)
            (suc n)
            ((if (split_step e c s).1 then flush total from (split_step e c s).0 else []) ++ out)

  split_loop-Rounds :
      (fuel : ℕ) (e : Engine) (total : ℕ) (from s : Text)
      → length s ≤ fuel
      → (n : ℕ) × Rounds e total from s n (split_loop fuel e total from s) × (n ≤ length s)
  unfolding split_loop
  split_loop-Rounds fuel e total from [] p = (0, ended from, omega arith)
  split_loop-Rounds zero e total from (c ∷ s) p = absurd (omega arith)
  split_loop-Rounds (suc fuel) e total from (c ∷ s) p =
      let next = (split_step e c s).0 in
      let shorter = Suffix-length (split_step-Suffix e c s) in
      let (n, rest, short) =
        split_loop-Rounds fuel e total (if (split_step e c s).1 then next else from) next
          (omega arith) in
      (suc n, round from c s n _ rest, omega arith)

  -- SplitStatements ends, for every engine and every buffer: its loop, which goes on while
  -- runes are left and has no derivation in Rounds if it never stops, gets to the end of the
  -- buffer after at most as many rounds as there are runes; what SplitStatements gives are the
  -- statements of that run, cut at the GO lines for SQL Server.
  pub split_statements-Ends :
      (e : Engine) (sql : Text)
      → (n : ℕ) × (out : List Statement) × Rounds e (length sql) sql sql n out
        × (n ≤ length sql)
        × (split_statements e sql ≡ (if is_sqlserver e then split_on_go_batches out else out))
  unfolding split_statements
  split_statements-Ends e sql =
      let (n, run, short) = split_loop-Rounds (length sql) e (length sql) sql sql (omega arith) in
      (n, _, run, short, refl)
