-- ===== src/Complete/Rank/Rated.antt =====
-- core/dbcore/complete.go: how `rank` rates a suggestion, told without the functions that it calls.
use mathlib.Core.Option.{some-injective}
use db_crawler.Complete.Rank.{Suggestion, has_prefix, match_score, penalty, score}
use db_crawler.Prelude.{
  ℕ, ◌+◌, ◌≡◌, ◌≢◌, refl, ap, sym, ◌∙◌, Bool, true, false, [], ◌∷◌, ◌++◌, Option, none, some, ◌⊎◌,
  inl, inr, arith, if◌then◌else◌,
}
use db_crawler.Text.{Text, Unicode, codes, to_lower, contains, cut, strip_prefix, text_eq}

abbrev pub StartsWith : Text → Text → Type 0
StartsWith needle lower = (rest : Text) × (lower ≡ needle ++ rest)

abbrev pub Holds : Text → Text → Type 0
Holds needle lower = (before : Text) × (after : Text) × (lower ≡ before ++ (needle ++ after))

-- 0 at the start of the text, 2 further inside, and 1 for every text if nothing is looked for.
abbrev pub Places : Text → Text → ℕ → Type 0
Places needle lower n =
    ((needle ≡ []) × (n ≡ 1))
    ⊎ ((needle ≢ [])
        × ((StartsWith needle lower × (n ≡ 0))
            ⊎ ((StartsWith needle lower → ⊥) × Holds needle lower × (n ≡ 2))))

strip_prefix-some : (p s t : Text) → strip_prefix p s ≡ some t → s ≡ p ++ t
unfolding strip_prefix
strip_prefix-some [] s t h = some-injective _ _ h
strip_prefix-some (x ∷ p) [] t h = absurd (cc h)
strip_prefix-some (x ∷ p) (y ∷ s) t h = ground (arith, strip_prefix-some p s t)

strip_prefix-append : (p t : Text) → strip_prefix p (p ++ t) ≡ some t
unfolding strip_prefix
strip_prefix-append [] t = refl
strip_prefix-append (x ∷ p) t = ground (arith, strip_prefix-append p t)

strip_prefix-none : (p s : Text) → strip_prefix p s ≡ none → StartsWith p s → ⊥
strip_prefix-none p s h (t, e) = cc (h, e, strip_prefix-append p t)

cut-Holds : (p s : Text) {r : Text × Text} → cut p s ≡ some r → Holds p s
unfolding cut
cut-Holds p [] {r} h = first (strip_prefix p []) refl h
  where
    first :
        (o : Option Text)
        → strip_prefix p [] ≡ o
        → elim o as (λ _. Option (Text × Text)) [ none ↦ none | some t ↦ some ([], t) ] ≡ some r
        → Holds p []
    first none e k = absurd (cc k)
    first (some t) e k = ([], t, strip_prefix-some p [] t e)
cut-Holds p (c ∷ s) {r} h = first (λ q e. cut-Holds p s {r = q} e) (strip_prefix p (c ∷ s)) refl h
  where
    later :
        ((r : Text × Text) → cut p s ≡ some r → Holds p s)
        → (o : Option (Text × Text)) → cut p s ≡ o
        → elim o as (λ _. Option (Text × Text)) [
          | none ↦ none
          | some (before, after) ↦ some (c ∷ before, after)
        ]
          ≡ some r
        → Holds p (c ∷ s)
    later hold none e k = absurd (cc k)
    later hold (some (b, a)) e k = let (b, a, q) = hold (b, a) e in (c ∷ b, a, ap (◌∷◌ c) q)

    first :
        ((r : Text × Text) → cut p s ≡ some r → Holds p s)
        → (o : Option Text) → strip_prefix p (c ∷ s) ≡ o
        → elim o as (λ _. Option (Text × Text)) [
          | some t ↦ some ([], t)
          | none ↦ elim (cut p s) [ none ↦ none | some (before, after) ↦ some (c ∷ before, after) ]
        ]
          ≡ some r
        → Holds p (c ∷ s)
    first hold none e k = later hold (cut p s) refl k
    first hold (some t) e k = ([], t, strip_prefix-some p (c ∷ s) t e)

cut-none_here : (p s : Text) → cut p s ≡ none → strip_prefix p s ≡ none
unfolding cut
cut-none_here p [] h = ground arith
cut-none_here p (c ∷ s) h = ground arith

cut-none_later : (p s : Text) (c : ℕ) → cut p (c ∷ s) ≡ none → cut p s ≡ none
unfolding cut
cut-none_later p s c h = ground arith

cut-none : (p b a : Text) → cut p (b ++ (p ++ a)) ≡ none → ⊥
cut-none p [] a h = strip_prefix-none p (p ++ a) (cut-none_here p (p ++ a) h) (a, refl)
cut-none p (c ∷ b) a h = cut-none p b a (cut-none_later p (b ++ (p ++ a)) c h)

contains-Holds : (s p : Text) → contains s p ≡ true → Holds p s
unfolding contains
contains-Holds s p h = go (cut p s) refl h
  where
    go :
        (o : Option (Text × Text))
        → cut p s ≡ o
        → elim o as (λ _. Bool) [ none ↦ false | some _ ↦ true ] ≡ true
        → Holds p s
    go none e k = absurd (cc k)
    go (some r) e k = cut-Holds p s e

Holds-contains : (s p : Text) → contains s p ≡ false → Holds p s → ⊥
unfolding contains
Holds-contains s p h (b, a, e) = go (cut p s) refl h
  where
    go :
        (o : Option (Text × Text))
        → cut p s ≡ o
        → elim o as (λ _. Bool) [ none ↦ false | some _ ↦ true ] ≡ false
        → ⊥
    go none q k = cut-none p b a (ap (cut p) (sym e) ∙ q)
    go (some r) q k = cc k

-- The switch finds the place, and finds one if there is one.
match_score-Places :
    (needle lower : Text) (n : ℕ) → match_score needle lower ≡ some n → Places needle lower n
unfolding match_score
match_score-Places [] lower n h = inl (refl, ground arith)
match_score-Places (c ∷ needle) lower n h =
    inr (
      cons_ne_nil,
      first (strip_prefix (c ∷ needle) lower) refl (contains lower (c ∷ needle)) refl h,
    )
  where
    cons_ne_nil : (c ∷ needle) ≢ []
    cons_ne_nil e = cc e

    first :
        (o : Option Text)
        → strip_prefix (c ∷ needle) lower ≡ o
        → (b : Bool) → contains lower (c ∷ needle) ≡ b
        → (if has_prefix o then some 0 else if b then some 2 else none) ≡ some n
        → (StartsWith (c ∷ needle) lower × (n ≡ 0))
          ⊎ ((StartsWith (c ∷ needle) lower → ⊥) × Holds (c ∷ needle) lower × (n ≡ 2))
    first (some t) e b f k = inl ((t, strip_prefix-some (c ∷ needle) lower t e), ground arith)
    first none e true f k =
        inr (
          strip_prefix-none (c ∷ needle) lower e,
          contains-Holds lower (c ∷ needle) f,
          ground arith,
        )
    first none e false f k = absurd (cc k)

Places-match_score :
    (needle lower : Text) (n : ℕ) → Places needle lower n → match_score needle lower ≡ some n
unfolding match_score
Places-match_score [] lower n (inl (e, k)) = ground arith
Places-match_score [] lower n (inr (e, k)) = absurd (e refl)
Places-match_score (c ∷ needle) lower n (inl (e, k)) = absurd (cc e)
Places-match_score (c ∷ needle) lower n (inr (e, k)) =
    first (strip_prefix (c ∷ needle) lower) refl (contains lower (c ∷ needle)) refl k
  where
    first :
        (o : Option Text)
        → strip_prefix (c ∷ needle) lower ≡ o
        → (b : Bool) → contains lower (c ∷ needle) ≡ b
        → (StartsWith (c ∷ needle) lower × (n ≡ 0))
          ⊎ ((StartsWith (c ∷ needle) lower → ⊥) × Holds (c ∷ needle) lower × (n ≡ 2))
        → (if has_prefix o then some 0 else if b then some 2 else none) ≡ some n
    first (some t) e b f (inl (h, k)) = ap some (sym k)
    first (some t) e b f (inr (h, k, m)) = absurd (h (t, strip_prefix-some (c ∷ needle) lower t e))
    first none e b f (inl (h, k)) = absurd (strip_prefix-none (c ∷ needle) lower e h)
    first none e true f (inr (h, k, m)) = ap some (sym m)
    first none e false f (inr (h, k, m)) = absurd (Holds-contains lower (c ∷ needle) f k)

module _ ⦃u : Unicode⦄ where
  -- The place in the text without regard to case; a keyword has 3 more.
  abbrev pub Rated : Text → Suggestion → ℕ → Type 0
  Rated needle s n =
      (m : ℕ) × Places needle (to_lower s.text) m
      × (n ≡ (if text_eq s.kind (codes "keyword") then m + 3 else m))

  pub score-Rated :
      (needle : Text) (s : Suggestion) (n : ℕ) → score needle s ≡ some n → Rated needle s n
  unfolding score
  score-Rated needle s n h =
      go (text_eq s.kind (codes "keyword")) (match_score needle (to_lower s.text)) refl h
    where
      go :
          (k : Bool) (o : Option ℕ)
          → match_score needle (to_lower s.text) ≡ o
          → penalty k o ≡ some n
          → (m : ℕ) × Places needle (to_lower s.text) m × (n ≡ (if k then m + 3 else m))
      go k none e p = absurd (cc p)
      go true (some m) e p =
          (m, match_score-Places needle (to_lower s.text) m e, sym (some-injective _ _ p))
      go false (some m) e p =
          (m, match_score-Places needle (to_lower s.text) m e, sym (some-injective _ _ p))

  pub Rated-score :
      (needle : Text) (s : Suggestion) (n : ℕ) → Rated needle s n → score needle s ≡ some n
  unfolding score
  Rated-score needle s n (m, p, e) =
      ap (penalty (text_eq s.kind (codes "keyword")))
        (Places-match_score needle (to_lower s.text) m p)
      ∙ go (text_eq s.kind (codes "keyword")) e
    where
      go : (k : Bool) → n ≡ (if k then m + 3 else m) → penalty k (some m) ≡ some n
      go true e = ap some (sym e)
      go false e = ap some (sym e)
