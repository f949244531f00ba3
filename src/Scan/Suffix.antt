-- ===== src/Scan/Suffix.antt =====
-- Every helper of the scanner moves forward and stays within the text.
use mathlib.Core.Option.{some-injective}
use db_crawler.Prelude.{
  ℕ, suc, ◌+◌, ◌-◌, ◌≤◌, ◌≡◌, refl, ap, subst, ◌∙◌, Bool, false, not, ◌&&◌, [], ◌∷◌, ◌++◌, Option,
  none, some, arith, ◌==◌, if_rule, length, drop, Bool-cases, inl, inr,
}
use db_crawler.Scan.{
  quoted_loop, skip_quoted, skip_until, skip_line_comment, block_loop, skip_block_comment,
  dollar_body, skip_dollar_quoted, is_ident_rune,
}
use db_crawler.Text.{Text, Unicode, span, cut, strip_prefix}

-- The first text is the rest of the second from some index on.
pub data Suffix : Text → Text → Type 0 where
  here : {s : Text} → Suffix s s
  there : {c : ℕ} {t s : Text} → Suffix t s → Suffix t (c ∷ s)

pub Suffix-nil : (s : Text) → Suffix [] s
Suffix-nil [] = here
Suffix-nil (c ∷ s) = there (Suffix-nil s)

pub Suffix-trans : {r t s : Text} → Suffix r t → Suffix t s → Suffix r s
Suffix-trans p here = p
Suffix-trans p (there q) = there (Suffix-trans p q)

pub Suffix-length : {t s : Text} → Suffix t s → length t ≤ length s
Suffix-length here = omega arith
Suffix-length (there q) = omega (arith, Suffix-length q)

pub Suffix-append : (p s : Text) → Suffix s (p ++ s)
Suffix-append [] s = here
Suffix-append (c ∷ p) s = there (Suffix-append p s)

-- A suffix is what remains when the runes before it are dropped.
pub Suffix-drop : {t s : Text} → Suffix t s → drop (length s - length t) s ≡ t
Suffix-drop {t} here = ap (λ (n : ℕ). drop n t) {x = length t - length t} {y = 0} (omega arith)
Suffix-drop {t} (there {c} {s = s} q) =
    ap (λ (n : ℕ). drop n (c ∷ s)) {x = suc (length s) - length t} {y = suc (length s - length t)}
      (omega (arith, Suffix-length q))
    ∙ Suffix-drop q

pub quoted_loop-Suffix : (quote : ℕ) (s : Text) → Suffix (quoted_loop quote s) s
unfolding quoted_loop
quoted_loop-Suffix quote [] = here
quoted_loop-Suffix quote (c ∷ []) = there here
quoted_loop-Suffix quote (c ∷ d ∷ s) =
    let two = there (there (quoted_loop-Suffix quote s)) in
    if_rule P (c == quote) (if_rule P (d == quote) two (there here))
      (if_rule P (c == b'\\') two (there (quoted_loop-Suffix quote (d ∷ s))))
  where
    P : Text → Type 0
    P t = Suffix t (c ∷ d ∷ s)

pub skip_quoted-Suffix : (quote c : ℕ) (s : Text) → Suffix (skip_quoted quote (c ∷ s)) s
unfolding skip_quoted
skip_quoted-Suffix quote c s = quoted_loop-Suffix quote s

pub skip_until-Suffix : (end : ℕ) (s : Text) → Suffix (skip_until end s) s
unfolding skip_until
skip_until-Suffix end [] = here
skip_until-Suffix end (c ∷ s) =
    if_rule (λ t. Suffix t (c ∷ s)) (c == end) (there here) (there (skip_until-Suffix end s))

pub skip_line_comment-Suffix : (s : Text) → Suffix (skip_line_comment s) s
unfolding skip_line_comment
skip_line_comment-Suffix [] = here
skip_line_comment-Suffix (c ∷ s) =
    if_rule (λ t. Suffix t (c ∷ s)) (c == b'\n') here (there (skip_line_comment-Suffix s))

-- At the start of a comment the line end is further on.
pub skip_line_comment-Suffix_tail :
    (c : ℕ) (s : Text) → (c == b'\n') ≡ false → Suffix (skip_line_comment (c ∷ s)) s
unfolding skip_line_comment
skip_line_comment-Suffix_tail c s h = rw h (skip_line_comment-Suffix s)

pub block_loop-Suffix : (depth : ℕ) (s : Text) → Suffix (block_loop depth s) s
unfolding block_loop
block_loop-Suffix depth [] = here
block_loop-Suffix depth (c ∷ []) = there here
block_loop-Suffix depth (c ∷ d ∷ s) =
    if_rule P (c == b'/' && d == b'*') (there (there (block_loop-Suffix (depth + 1) s))) (
      if_rule P (c == b'*' && d == b'/')
        (if_rule P ((depth - 1) == 0) (there (there here))
          (there (there (block_loop-Suffix (depth - 1) s))))
        (there (block_loop-Suffix depth (d ∷ s))))
  where
    P : Text → Type 0
    P t = Suffix t (c ∷ d ∷ s)

-- The loop takes one rune at least.
pub block_loop-Suffix_tail : (depth c : ℕ) (s : Text) → Suffix (block_loop depth (c ∷ s)) s
unfolding block_loop
block_loop-Suffix_tail depth c [] = here
block_loop-Suffix_tail depth c (d ∷ s) =
    if_rule P (c == b'/' && d == b'*') (there (block_loop-Suffix (depth + 1) s)) (
      if_rule P (c == b'*' && d == b'/')
        (if_rule P ((depth - 1) == 0) (there here) (there (block_loop-Suffix (depth - 1) s)))
        (block_loop-Suffix depth (d ∷ s)))
  where
    P : Text → Type 0
    P t = Suffix t (d ∷ s)

pub skip_block_comment-Suffix : (c : ℕ) (s : Text) → Suffix (skip_block_comment (c ∷ s)) s
unfolding skip_block_comment
skip_block_comment-Suffix c [] = here
skip_block_comment-Suffix c (d ∷ s) = there (block_loop-Suffix 1 s)

pub strip_prefix-Suffix : (p s : Text) {t : Text} → strip_prefix p s ≡ some t → Suffix t s
unfolding strip_prefix
strip_prefix-Suffix [] s h = subst (λ x. Suffix x s) (some-injective _ _ h) here
strip_prefix-Suffix (x ∷ p) [] h = cc
strip_prefix-Suffix (x ∷ p) (y ∷ s) h = elim (Bool-cases (x == y)) [
  | inl e ↦ there (strip_prefix-Suffix p s (rw e at h))
  | inr e ↦ absurd (cc (rw e at h))
]

-- What a cut leaves behind the separator.
abbrev After : Text → Option (Text × Text) → Type 0
After s none = Unit
After s (some (before, after)) = Suffix after s

pub cut-After : (sep s : Text) → After s (cut sep s)
unfolding cut
cut-After sep [] = first (strip_prefix sep []) refl
  where
    first :
        (r : Option Text)
        → strip_prefix sep [] ≡ r
        → After [] (elim r [ none ↦ none | some after ↦ some ([], after) ])
    first none e = tt
    first (some t) e = strip_prefix-Suffix sep [] e
cut-After sep (c ∷ s) = first (strip_prefix sep (c ∷ s)) (cut sep s) refl (cut-After sep s)
  where
    first :
        (r : Option Text) (q : Option (Text × Text))
        → strip_prefix sep (c ∷ s) ≡ r
        → After s q
        → After (c ∷ s) (elim r [
          | some after ↦ some ([], after)
          | none ↦ elim q [ none ↦ none | some (before, after) ↦ some (c ∷ before, after) ]
        ])
    first (some t) q e h = strip_prefix-Suffix sep (c ∷ s) e
    first none none e h = tt
    first none (some (before, after)) e h = there h

pub span-Suffix : (p : ℕ → Bool) (s : Text) → Suffix (span p s).1 s
unfolding span
span-Suffix p [] = here
span-Suffix p (c ∷ s) =
    if_rule (λ (r : Text × Text). Suffix r.1 (c ∷ s)) (p c) (there (span-Suffix p s)) here

module _ ⦃u : Unicode⦄ where
  abbrev InSome : Text → Option Text → Type 0
  InSome s none = Unit
  InSome s (some t) = Suffix t s

  dollar_body-InSome : (name s : Text) → InSome s (dollar_body name s)
  unfolding dollar_body
  dollar_body-InSome name [] = tt
  dollar_body-InSome name (c ∷ body) =
      if_rule (InSome (c ∷ body)) (not (c == b'$')) tt (
        found (cut (b'$' ∷ (name ++ b'$' ∷ [])) body) (cut-After (b'$' ∷ (name ++ b'$' ∷ [])) body))
    where
      found :
          (r : Option (Text × Text))
          → After body r
          → InSome (c ∷ body) (elim r [ none ↦ some [] | some (inside, after) ↦ some after ])
      found none h = Suffix-nil _
      found (some (inside, after)) h = there h

  pub dollar-Suffix :
      (c : ℕ) (s : Text)
      → Suffix (elim (skip_dollar_quoted (c ∷ s)) [ none ↦ s | some next ↦ next ]) s
  unfolding skip_dollar_quoted
  dollar-Suffix c s = choose (dollar_body r.0 r.1) (dollar_body-InSome r.0 r.1)
    where
      r : Text × Text
      r = span is_ident_rune s

      choose : (o : Option Text) → InSome r.1 o → Suffix (elim o [ none ↦ s | some next ↦ next ]) s
      choose none h = here
      choose (some t) h = Suffix-trans h (span-Suffix is_ident_rune s)
