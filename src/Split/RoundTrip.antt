-- ===== src/Split/RoundTrip.antt =====
-- A script of statements, each ended by a semicolon, is split into just these statements.
use db_crawler.Engine.{Engine, double, is_sqlserver}
use db_crawler.Prelude.{
  ℕ, zero, suc, ◌≤◌, ◌≡◌, refl, ap, subst, sym, ◌∙◌, Bool, true, false, List, [], ◌∷◌, ◌++◌, map,
  arith, length, append_assoc, All, take_before,
}
use db_crawler.Scan.Prose.{
  Prose, end, rune, literal, quote_with, next_is-Prose, skip_quoted-quote_with,
}
use db_crawler.Scan.Suffix.{Suffix-length}
use db_crawler.Scan.{next_is, skip_quoted}
use db_crawler.Split.Plain.{split_step_plain}
use db_crawler.Split.Progress.{split_step-Suffix, split_loop_fuel}
use db_crawler.Split.Reach.{Reach, stay, pass}
use db_crawler.Split.Tiling.{flush_kept, semicolon_no_blank}
use db_crawler.Split.{Statement, split_step, flush, split_loop, split_statements}
use db_crawler.Text.{Text, Unicode, trim_left, trim_space}
use db_crawler.Text.Trim.{trim_space-concat}

-- The texts of the statements, one after another.
pub script : List Text → Text
script [] = []
script (s ∷ rest) = s ++ (b';' ∷ script rest)

module _ ⦃u : Unicode⦄ (e : Engine) where
  split_step_quote : (s : Text) → split_step e b'\'' s ≡ (skip_quoted b'\'' (b'\'' ∷ s), false)
  unfolding split_step
  split_step_quote s = refl

  split_step_semicolon : (s : Text) → split_step e b';' s ≡ (s, true)
  unfolding split_step
  split_step_semicolon s = refl

  pub Reach-Prose : {s : Text} (t : Text) → next_is b'\'' t ≡ false → Prose s → Reach e (s ++ t) t
  unfolding quote_with
  Reach-Prose t h end = stay
  Reach-Prose t h (rune {c} {s} p q) =
      let step = split_step_plain e c (s ++ t) p in
      pass (ap (λ (r : Text × Bool). r.1) step)
        (subst (λ x. Reach e x t) (sym (ap (λ (r : Text × Bool). r.0) step)) (Reach-Prose t h q))
  Reach-Prose t h (literal body {s} f k q) =
      let skipped = skip_quoted-quote_with b'\'' body (s ++ t) f (next_is-Prose s t k h) in
      let step = split_step_quote ((double b'\'' body ++ b'\'' ∷ []) ++ (s ++ t)) in
      let lands = ap (λ (r : Text × Bool). r.0) step ∙ skipped in
      subst (λ x. Reach e x t) (sym (append_assoc (quote_with b'\'' body) s t))
        (pass (ap (λ (r : Text × Bool). r.1) step)
          (subst (λ x. Reach e x t) (sym lands) (Reach-Prose t h q)))

  split_loop-Reach :
      (total : ℕ) (a : Text) {from t : Text} (f : ℕ)
      → Reach e from t
      → length from ≤ f
      → split_loop f e total a from ≡ split_loop (length t) e total a t
  unfolding split_loop
  split_loop-Reach total a {from} f stay h =
      split_loop_fuel f (length from) e total a from h (omega arith)
  split_loop-Reach total a zero (pass {c} {s} on r) h = absurd (omega arith)
  split_loop-Reach total a (suc f) (pass {c} {s} on r) h =
      rw on (split_loop-Reach total a f r (omega (arith, Suffix-length (split_step-Suffix e c s))))

  split_loop_semicolon :
      (total : ℕ) (a rest : Text)
      → split_loop (suc (length rest)) e total a (b';' ∷ rest)
        ≡ flush total a rest ++ split_loop (length rest) e total rest rest
  unfolding split_loop
  split_loop_semicolon total a rest = rw (split_step_semicolon rest)

  -- The first statement of a script is emitted, and the rest is split from its end on.
  split_loop_first :
      (total : ℕ) (s rest : Text)
      → Prose s
      → map
          (λ (st : Statement). st.text)
          (split_loop
            (length (s ++ (b';' ∷ rest)))
            e
            total
            (s ++ (b';' ∷ rest))
            (s ++ (b';' ∷ rest)))
        ≡ (trim_left s ++ b';' ∷ [])
          ∷ map (λ (st : Statement). st.text) (split_loop (length rest) e total rest rest)
  split_loop_first total s rest p =
      let whole = s ++ (b';' ∷ rest) in
      let reach = Reach-Prose (b';' ∷ rest) refl p in
      let walked = split_loop-Reach total whole (length whole) reach (omega arith) in
      let cut = split_loop_semicolon total whole rest in
      let later = split_loop (length rest) e total rest rest in
      let kept = ap (λ x. x ++ later) (flush_kept e total whole rest reach) in
      let piece = take_before (s ++ b';' ∷ []) rest (sym (append_assoc s (b';' ∷ []) rest)) in
      let trimmed = ap trim_space piece ∙ trim_space-concat s b';' semicolon_no_blank in
      ap (map (λ (st : Statement). st.text)) (walked ∙ cut ∙ kept)
      ∙ ap (λ (t : Text). t ∷ map (λ (st : Statement). st.text) later) trimmed

  script_loop :
      (total : ℕ) (ss : List Text)
      → All Prose ss
      → map
          (λ (st : Statement). st.text)
          (split_loop (length (script ss)) e total (script ss) (script ss))
        ≡ map (λ s. trim_left s ++ b';' ∷ []) ss
  unfolding script split_loop flush
  script_loop total [] ps = refl
  script_loop total (s ∷ ss) ps =
      split_loop_first total s (script ss) ps.0
      ∙ ap (◌∷◌ (trim_left s ++ b';' ∷ [])) (script_loop total ss ps.1)

  -- For every engine but SQL Server, a script of texts that each consist of runes with no
  -- meaning to the splitter and of string literals without backslashes, each text ended by a
  -- semicolon, is split into exactly these texts, trimmed on the left, with their semicolons:
  -- the semicolons inside the literals separate nothing.
  pub split_statements-script :
      (ss : List Text)
      → is_sqlserver e ≡ false
      → All Prose ss
      → map (λ (st : Statement). st.text) (split_statements e (script ss))
        ≡ map (λ s. trim_left s ++ b';' ∷ []) ss
  unfolding split_statements
  split_statements-script ss h ps = rw h (script_loop (length (script ss)) ss ps)
