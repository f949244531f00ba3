-- ===== src/Split/Reach.antt =====
-- How the splitter moves from the start of a statement, and that `StripLeading` moves with it
-- while it sees blanks, comments and opening parentheses.
use db_crawler.Classify.Leading.{strip_step, strip_loop}
use db_crawler.Engine.{Engine}
use db_crawler.Prelude.{
  ℕ, zero, suc, ◌≤◌, ◌<◌, ◌≡◌, refl, ap, subst, sym, ◌∙◌, Bool, true, false, ◌&&◌, [], ◌∷◌, ◌++◌,
  Option, none, some, arith, ◌==◌, if_cases, length,
}
use db_crawler.Scan.Prose.{is_plain, is_plain_space}
use db_crawler.Scan.Suffix.{
  Suffix, here, there, Suffix-trans, Suffix-length, skip_line_comment-Suffix_tail,
  skip_block_comment-Suffix,
}
use db_crawler.Scan.Truncate.{skip_line_comment-append, skip_block_comment-append}
use db_crawler.Scan.{next_is, skip_line_comment, skip_block_comment}
use db_crawler.Split.Plain.{split_step_plain, split_step_dashes, split_step_block}
use db_crawler.Split.Progress.{split_step-Suffix}
use db_crawler.Split.{split_step}
use db_crawler.Text.{Text, Unicode, is_space, is_nil}

next_is-append : (d : ℕ) (p q : Text) → next_is d p ≡ true → next_is d (p ++ q) ≡ true
next_is-append d [] q h = cc
next_is-append d (c ∷ p) q h = h

opens_append :
    (k d c : ℕ) (p q : Text)
    → (c == k && next_is d p) ≡ true
    → (c == k && next_is d (p ++ q)) ≡ true
opens_append k d c p q h = ground (arith, next_is-append d p q)

paren-is_plain : (c : ℕ) → (c == b'(') ≡ true → is_plain c ≡ true
unfolding is_plain
paren-is_plain c h = ground arith

strip_loop_semicolon : (f c : ℕ) (s : Text) → c ≡ b';' → is_nil (strip_loop (suc f) (c ∷ s)) ≡ false
unfolding strip_loop strip_step
strip_loop_semicolon f c s h = ground arith

module _ ⦃u : Unicode⦄ (e : Engine) where
  -- Rounds that end at no separator lead from the first text to the second.
  pub data Reach : Text → Text → Type 0 where
    stay : {s : Text} → Reach s s
    pass :
        {c : ℕ} {s t : Text}
        → (split_step e c s).1 ≡ false
        → Reach (split_step e c s).0 t
        → Reach (c ∷ s) t

  pub Reach-Suffix : {from t : Text} → Reach from t → Suffix t from
  Reach-Suffix stay = here
  Reach-Suffix (pass {c} {s} _ r) = Suffix-trans (Reach-Suffix r) (there (split_step-Suffix e c s))

  pub Reach-snoc :
      {from t : Text} (c : ℕ) (s : Text)
      → Reach from t
      → t ≡ c ∷ s
      → (split_step e c s).1 ≡ false
      → Reach from (split_step e c s).0
  Reach-snoc {from} c s stay q on = subst (λ x. Reach x (split_step e c s).0) (sym q) (pass on stay)
  Reach-snoc c s (pass yes' r) q on = pass yes' (Reach-snoc c s r q on)

  -- One round of `strip_loop` on what stands before `next`, if the splitter's rounds lead past it.
  strip_round :
      (c : ℕ) (s p next : Text) (f : ℕ)
      → s ≡ p ++ next
      → length p ≤ f
      → length next < length (split_step e c s).0
      → ((q : Text)
          → (split_step e c s).0 ≡ q ++ next
          → length q ≤ f
          → is_nil (strip_loop f q) ≡ false)
      → is_nil (strip_loop (suc f) (c ∷ p)) ≡ false
  unfolding strip_loop strip_step
  strip_round c s p next f es fuel longer go =
      if_cases P (is_space c) (λ h. plain (is_plain_space c h))
        (λ _.
          if_cases P (c == b'-' && next_is b'-' p) (λ h. dashes h)
            (λ _.
              if_cases P (c == b'/' && next_is b'*' p) (λ h. block h)
                (λ _. if_cases P (c == b'(') (λ h. plain (paren-is_plain c h)) (λ _. refl))))
    where
      P : Option Text → Type 0
      P r = is_nil (elim r [ none ↦ c ∷ p | some next ↦ strip_loop f next ]) ≡ false

      plain : is_plain c ≡ true → is_nil (strip_loop f p) ≡ false
      plain h = go p (ap (λ (r : Text × Bool). r.0) (split_step_plain e c s h) ∙ es) fuel

      dashes :
          (c == b'-' && next_is b'-' p) ≡ true
          → is_nil (strip_loop f (skip_line_comment (c ∷ p))) ≡ false
      dashes h =
          go _
            (lands
              ∙ sym (
                  skip_line_comment-append (c ∷ p) next
                    (subst (λ x. length next < length x) lands longer)))
            (omega (arith, Suffix-length (skip_line_comment-Suffix_tail c p (ground arith))))
        where
          opens : (c == b'-' && next_is b'-' s) ≡ true
          opens =
              subst (λ x. (c == b'-' && next_is b'-' x) ≡ true) (sym es)
                (opens_append b'-' b'-' c p next h)

          lands : (split_step e c s).0 ≡ skip_line_comment (c ∷ (p ++ next))
          lands =
              ap (λ (r : Text × Bool). r.0) (split_step_dashes e c s opens)
              ∙ ap (λ x. skip_line_comment (c ∷ x)) es

      block :
          (c == b'/' && next_is b'*' p) ≡ true
          → is_nil (strip_loop f (skip_block_comment (c ∷ p))) ≡ false
      block h =
          go _
            (lands
              ∙ sym (
                  skip_block_comment-append c p next
                    (subst (λ x. length next < length x) lands longer)))
            (omega (arith, Suffix-length (skip_block_comment-Suffix c p)))
        where
          opens : (c == b'/' && next_is b'*' s) ≡ true
          opens =
              subst (λ x. (c == b'/' && next_is b'*' x) ≡ true) (sym es)
                (opens_append b'/' b'*' c p next h)

          lands : (split_step e c s).0 ≡ skip_block_comment (c ∷ (p ++ next))
          lands =
              ap (λ (r : Text × Bool). r.0) (split_step_block e c s opens)
              ∙ ap (λ x. skip_block_comment (c ∷ x)) es

  -- A text that leads up to a semicolon is more than blanks and comments.
  pub strip_loop-Reach :
      (p next : Text) (f : ℕ) {from t : Text}
      → Reach from t
      → from ≡ p ++ next
      → t ≡ b';' ∷ next
      → length p ≤ f
      → is_nil (strip_loop f p) ≡ false
  strip_loop-Reach [] next f stay a b fuel = absurd (omega (arith, ap length a, ap length b))
  strip_loop-Reach (x ∷ p) next zero stay a b fuel = absurd (omega arith)
  strip_loop-Reach (x ∷ p) next (suc f) stay a b fuel = strip_loop_semicolon f x p (cc (sym a ∙ b))
  strip_loop-Reach [] next f (pass {c} {s} on r) a b fuel = absurd (
      omega (
        arith,
        ap length a,
        ap length b,
        Suffix-length (Reach-Suffix r),
        Suffix-length (split_step-Suffix e c s),
      ))
  strip_loop-Reach (x ∷ p) next zero (pass on r) a b fuel = absurd (omega arith)
  strip_loop-Reach (x ∷ p) next (suc f) (pass {c} {s} on r) a b fuel =
      subst (λ y. is_nil (strip_loop (suc f) (y ∷ p)) ≡ false) (cc a)
        (strip_round c s p next f (cc a) (omega arith)
          (omega (arith, ap length b, Suffix-length (Reach-Suffix r)))
          (λ q lands short. strip_loop-Reach q next f r lands b short))
