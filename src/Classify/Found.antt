-- ===== src/Classify/Found.antt =====
-- Words behind any prose are among the keywords that the scanner finds.
use db_crawler.Classify.Progress.{word_start}
use db_crawler.Classify.Words.{keyword_step, keyword_loop, found_then}
use db_crawler.Engine.{double}
use db_crawler.Prelude.{
  ℕ, zero, suc, ◌≤◌, ◌≡◌, refl, ap, subst, sym, ◌∙◌, ◌⊎◌, inl, inr, Bool, true, false, ◌||◌, List,
  [], ◌∷◌, ◌++◌, Option, none, some, arith, ◌==◌, if◌then◌else◌, length, All, length-append,
  append_assoc, Bool-cases,
}
use db_crawler.Scan.Prose.{
  is_plain, Free, Prose, end, rune, literal, quote_with, next_is-Prose, skip_quoted-quote_with,
}
use db_crawler.Scan.Suffix.{Suffix-length, span-Suffix}
use db_crawler.Scan.{is_ident_rune, next_is, skip_quoted}
use db_crawler.Text.{Text, Unicode, is_letter, span, to_upper}

-- The text is one of the words found.
abbrev pub Among : Text → List Text → Type 0
Among w [] = ⊥
Among w (x ∷ ws) = (x ≡ w) ⊎ Among w ws

Among-found_then :
    (w : Text) (o : Option Text) (ws : List Text) → Among w ws → Among w (found_then o ws)
Among-found_then w none ws h = h
Among-found_then w (some x) ws h = inr h

span_stop :
    (p : ℕ → Bool) (s : Text) (c : ℕ) (t : Text)
    → p c ≡ false
    → span p (s ++ (c ∷ t)) ≡ ((span p s).0, (span p s).1 ++ (c ∷ t))
unfolding span
span_stop p [] c t h = rw h
span_stop p (x ∷ s) c t h = elim (Bool-cases (p x)) [
  | inl e ↦ rw e (ap (λ (r : Text × Text). (x ∷ r.0, r.1)) (span_stop p s c t h))
  | inr e ↦ rw e
]

module _ ⦃u : Unicode⦄ where
  letter-is_plain : (c : ℕ) → (is_letter c || c == b'_') ≡ true → is_plain c ≡ true
  unfolding is_letter is_plain
  letter-is_plain c h = ground arith

  keyword_step_plain :
      (c : ℕ) (s : Text)
      → is_plain c ≡ true
      → keyword_step c s ≡ (
          if is_letter c || c == b'_'
          then ((span is_ident_rune (c ∷ s)).1, some (to_upper (span is_ident_rune (c ∷ s)).0))
          else (s, none))
  unfolding keyword_step is_plain
  keyword_step_plain c s h = ground arith

  keyword_step_letter :
      (c : ℕ) (s : Text)
      → (is_letter c || c == b'_') ≡ true
      → keyword_step c s
        ≡ ((span is_ident_rune (c ∷ s)).1, some (to_upper (span is_ident_rune (c ∷ s)).0))
  keyword_step_letter c s h = rw (keyword_step_plain c s (letter-is_plain c h)) (rw h refl)

  keyword_step_other :
      (c : ℕ) (s : Text)
      → is_plain c ≡ true
      → (is_letter c || c == b'_') ≡ false
      → keyword_step c s ≡ (s, none)
  keyword_step_other c s p h = rw (keyword_step_plain c s p) (rw h refl)

  keyword_step_quote : (s : Text) → keyword_step b'\'' s ≡ (skip_quoted b'\'' (b'\'' ∷ s), none)
  unfolding keyword_step
  keyword_step_quote s = refl

  -- No part of a quoted text, and no quote, belongs to a word.
  quote_no_ident : is_ident_rune b'\'' ≡ false
  unfolding is_ident_rune
  quote_no_ident = refl

  blank_no_ident : is_ident_rune b' ' ≡ false
  unfolding is_ident_rune
  blank_no_ident = refl

  blank_step : (s : Text) → keyword_step b' ' s ≡ (s, none)
  unfolding keyword_step is_letter
  blank_step s = refl

  Prose-span : {s : Text} → Prose s → Prose (span is_ident_rune s).1
  unfolding span quote_with
  Prose-span end = end
  Prose-span (rune {c} {s} p q) = elim (Bool-cases (is_ident_rune c)) [
    | inl e ↦ rw e (Prose-span q)
    | inr e ↦ rw e (rune p q)
  ]
  Prose-span (literal body f k q) = rw quote_no_ident (literal body f k q)

  span_first :
      (c : ℕ) (s : Text)
      → is_ident_rune c ≡ true
      → span is_ident_rune (c ∷ s) ≡ (c ∷ (span is_ident_rune s).0, (span is_ident_rune s).1)
  unfolding span
  span_first c s h = rw h

  -- A word: it starts with a letter or an underscore, and has runes of identifiers only.
  abbrev pub IsWord : Text → Type 0
  IsWord [] = ⊥
  IsWord (c ∷ s) = ((is_letter c || c == b'_') ≡ true) × All (λ d. is_ident_rune d ≡ true) s

  -- A word before this text ends there.
  abbrev pub Stops : Text → Type 0
  Stops [] = Unit
  Stops (d ∷ t) = is_ident_rune d ≡ false

  span_word :
      (w t : Text)
      → All (λ d. is_ident_rune d ≡ true) w
      → Stops t
      → span is_ident_rune (w ++ t) ≡ (w, t)
  unfolding span
  span_word [] [] a h = refl
  span_word [] (d ∷ t) a h = rw h
  span_word (c ∷ w) t a h =
      rw (a.0) (ap (λ (r : Text × Text). (c ∷ r.0, r.1)) (span_word w t a.1 h))

  word_step :
      (c : ℕ) (w t : Text)
      → IsWord (c ∷ w)
      → Stops t
      → keyword_step c (w ++ t) ≡ (t, some (to_upper (c ∷ w)))
  word_step c w t h stop =
      keyword_step_letter c (w ++ t) h.0
      ∙ rw (span_word (c ∷ w) t (word_start c h.0, h.1) stop) refl

  found_word :
      (f : ℕ) (w t : Text)
      → IsWord w
      → Stops t
      → length (b' ' ∷ (w ++ t)) ≤ f
      → Among (to_upper w) (keyword_loop f (b' ' ∷ (w ++ t)))
  unfolding keyword_loop
  found_word f [] t h stop le = absurd h
  found_word zero (c ∷ w) t h stop le = absurd (omega arith)
  found_word (suc zero) (c ∷ w) t h stop le = absurd (omega arith)
  found_word (suc (suc f)) (c ∷ w) t h stop le =
      rw (blank_step (c ∷ (w ++ t))) (rw (word_step c w t h stop) (inl refl))

  module _ (w t : Text) (word : IsWord w) (stop : Stops t) where
    abbrev tail : Text
    tail = b' ' ∷ (w ++ t)

    letter_step :
        (c : ℕ) (s : Text)
        → (is_letter c || c == b'_') ≡ true
        → (keyword_step c (s ++ tail)).0 ≡ (span is_ident_rune s).1 ++ tail
    letter_step c s h =
        ap (λ (r : Text × Option Text). r.0) (keyword_step_letter c (s ++ tail) h)
        ∙ ap (λ (r : Text × Text). r.1) (span_first c (s ++ tail) (word_start c h))
        ∙ ap (λ (r : Text × Text). r.1) (span_stop is_ident_rune s b' ' (w ++ t) blank_no_ident)

    plain_step :
        (c : ℕ) (s : Text)
        → is_plain c ≡ true
        → (is_letter c || c == b'_') ≡ false
        → (keyword_step c (s ++ tail)).0 ≡ s ++ tail
    plain_step c s p h = ap (λ (r : Text × Option Text). r.0) (keyword_step_other c (s ++ tail) p h)

    step_behind :
        (f c : ℕ) (s next : Text)
        → (keyword_step c s).0 ≡ next
        → Among (to_upper w) (keyword_loop f next)
        → Among (to_upper w) (keyword_loop (suc f) (c ∷ s))
    unfolding keyword_loop
    step_behind f c s next e h =
        Among-found_then (to_upper w) (keyword_step c s).1 _
          (subst (λ x. Among (to_upper w) (keyword_loop f x)) (sym e) h)

    literal_length :
        (body r : Text) (c : ℕ) (s : Text)
        → quote_with b'\'' body ++ r ≡ c ∷ s
        → length r ≤ length s
    unfolding quote_with
    literal_length body r c s e =
        omega (arith, ap length e, length-append (double b'\'' body ++ b'\'' ∷ []) r)

    literal_step :
        (body r : Text) (c : ℕ) (s : Text)
        → quote_with b'\'' body ++ r ≡ c ∷ s
        → Free b'\\' body
        → next_is b'\'' r ≡ false
        → (keyword_step c (s ++ tail)).0 ≡ r ++ tail
    unfolding quote_with
    literal_step body r c s e free opens =
        subst (λ x. (keyword_step x (s ++ tail)).0 ≡ r ++ tail) {x = b'\''} {y = c} (cc e)
          (subst (λ x. (keyword_step b'\'' (x ++ tail)).0 ≡ r ++ tail)
            {x = (double b'\'' body ++ b'\'' ∷ []) ++ r} {y = s} (cc e) skipped)
      where
        skipped :
            (keyword_step b'\'' (((double b'\'' body ++ b'\'' ∷ []) ++ r) ++ tail)).0 ≡ r ++ tail
        skipped =
            ap (λ (r : Text × Option Text). r.0) (keyword_step_quote _)
            ∙ ap (skip_quoted b'\'') (append_assoc (quote_with b'\'' body) r tail)
            ∙ skip_quoted-quote_with b'\'' body (r ++ tail) free (next_is-Prose r tail opens refl)

    -- Where a round at the start of some prose ends: at the start of shorter prose.
    Prose-round :
        {p : Text} (c : ℕ) (s : Text)
        → Prose p
        → p ≡ c ∷ s
        → (q : Text) × (length q ≤ length s)
          × Prose q
          × ((keyword_step c (s ++ tail)).0 ≡ q ++ tail)
    Prose-round c s end e = absurd (cc e)
    Prose-round c s (rune {c = d} {s = r} plain rest) e =
        let kind = subst Prose {x = r} {y = s} (cc e) rest in
        let calm = subst (λ x. is_plain x ≡ true) {x = d} {y = c} (cc e) plain in
        elim (Bool-cases (is_letter c || c == b'_')) [
          | inl h ↦ (
            (span is_ident_rune s).1,
            Suffix-length (span-Suffix is_ident_rune s),
            Prose-span kind,
            letter_step c s h,
          )
          | inr h ↦ (s, omega arith, kind, plain_step c s calm h)
        ]
    Prose-round c s (literal body {s = r} free opens rest) e =
        (r, literal_length body r c s e, rest, literal_step body r c s e free opens)

    pub found_behind :
        (n f : ℕ) (p : Text)
        → Prose p
        → length p ≤ n
        → length (p ++ tail) ≤ f
        → Among (to_upper w) (keyword_loop f (p ++ tail))
    found_behind n f [] prose less fuel = found_word f w t word stop fuel
    found_behind zero f (c ∷ s) prose less fuel = absurd (omega arith)
    found_behind (suc n) zero (c ∷ s) prose less fuel = absurd (omega arith)
    found_behind (suc n) (suc f) (c ∷ s) prose less fuel =
        let (q, shorter, kind, lands) = Prose-round c s prose refl in
        step_behind f c (s ++ tail) (q ++ tail) lands (
          found_behind n f q kind (omega arith)
            (omega (arith, length-append s tail, length-append q tail)))
