-- ===== src/Complete/Rank/Offered.antt =====
-- core/dbcore/complete.go: what `rank` offers, and in which order.
use mathlib.Core.List.{Perm}
use db_crawler.Complete.Order.Perms.{sort_by-Perm}
use db_crawler.Complete.Order.Sorted.{Sorted, Asymmetric, sort_by-Sorted}
use db_crawler.Complete.Order.{sort_by, seen_in}
use db_crawler.Complete.Rank.Rated.{Rated, score-Rated, Rated-score}
use db_crawler.Complete.Rank.{
  Suggestion, score, rank_loop, ranks_before, rank, keep, suggestion_key,
}
use db_crawler.Prelude.{
  ℕ, ◌<◌, ◌≡◌, refl, ap, sym, true, false, List, [], ◌∷◌, ◌++◌, Option, none, some, inl, inr, ◌⊎◌,
  arith, if_cases, Bool-cases, subst, take, map, All,
}
use db_crawler.Text.Url.{text_lt}
use db_crawler.Text.Words.{text_eq_iff}
use db_crawler.Text.{Text, Unicode, to_lower}

abbrev pub Among : Suggestion → List Suggestion → Type 0
Among s [] = ⊥
Among s (t ∷ ts) = (t ≡ s) ⊎ Among s ts

pub text_lt_asym : (s t : Text) → text_lt s t ≡ true → text_lt t s ≡ false
unfolding text_lt
text_lt_asym s [] h = absurd (cc h)
text_lt_asym [] (d ∷ t) h = refl
text_lt_asym (c ∷ s) (d ∷ t) h = ground (arith, text_lt_asym s t)

module _ ⦃u : Unicode⦄ where
  -- The same kind and name, without regard to the case of the name.
  abbrev pub SameName : Suggestion → Suggestion → Type 0
  SameName s t = s.kind ++ (0 ∷ to_lower s.text) ≡ t.kind ++ (0 ∷ to_lower t.text)

  -- The first that is given of those with its name that have a rating.
  abbrev pub First : Text → List Suggestion → Suggestion → Type 0
  First needle given s =
      (before : List Suggestion) × (after : List Suggestion) × (given ≡ before ++ (s ∷ after))
      × All (λ (t : Suggestion). SameName t s → (n : ℕ) → Rated needle t n → ⊥) before

  abbrev pub Named : Suggestion → List (Suggestion × ℕ) → Type 0
  Named s [] = ⊥
  Named s (k ∷ ks) = SameName k.0 s ⊎ Named s ks

  abbrev pub Distinct : List (Suggestion × ℕ) → Type 0
  Distinct [] = Unit
  Distinct (k ∷ ks) = All (λ (l : Suggestion × ℕ). SameName k.0 l.0 → ⊥) ks × Distinct ks

  -- Each is given, with its rating, and is the first of its name; no name comes twice; and each
  -- name that is given with a rating is there.
  abbrev pub Chosen : Text → List Suggestion → List (Suggestion × ℕ) → Type 0
  Chosen needle given found =
      All (λ (k : Suggestion × ℕ). Rated needle k.0 k.1 × First needle given k.0) found
      × Distinct found
      × ((s : Suggestion) (n : ℕ) → Among s given → Rated needle s n → Named s found)

  -- The better rating first, and of equal ratings the lesser name, without regard to case.
  abbrev pub InOrder : List (Suggestion × ℕ) → Type 0
  InOrder [] = Unit
  InOrder (k ∷ []) = Unit
  InOrder (k ∷ l ∷ ks) =
      ((k.1 < l.1) ⊎ ((k.1 ≡ l.1) × (text_lt (to_lower l.0.text) (to_lower k.0.text) ≡ false)))
      × InOrder (l ∷ ks)

  -- The same for the part of the given ones that is left, with the names seen before it.
  abbrev Fresh : List Text → Text → List Suggestion → Suggestion × ℕ → Type 0
  Fresh seen needle given k =
      (seen_in (suggestion_key k.0) seen ≡ false) × Rated needle k.0 k.1 × First needle given k.0

  abbrev Loop : List Text → Text → List Suggestion → List (Suggestion × ℕ) → Type 0
  Loop seen needle given found =
      All (Fresh seen needle given) found
      × Distinct found
      × ((s : Suggestion) (n : ℕ)
          → Among s given
          → Rated needle s n
          → seen_in (suggestion_key s) seen ≡ false
          → Named s found)

  seen_then :
      (k key : Text) (seen : List Text)
      → seen_in k (key ∷ seen) ≡ false
      → (seen_in k seen ≡ false) × (key ≡ k → ⊥)
  unfolding seen_in
  seen_then k key seen h = ground (arith, text_eq_iff key k)

  seen_now :
      (k key : Text) (seen : List Text)
      → seen_in k (key ∷ seen) ≡ true
      → seen_in k seen ≡ false
      → key ≡ k
  unfolding seen_in
  seen_now k key seen h q = (text_eq_iff key k).0 (ground arith)

  forget :
      (seen : List Text) (needle : Text) (given : List Suggestion) (ks : List (Suggestion × ℕ))
      → All (Fresh seen needle given) ks
      → All (λ (k : Suggestion × ℕ). Rated needle k.0 k.1 × First needle given k.0) ks
  forget seen needle given [] a = tt
  forget seen needle given (k ∷ ks) (f, a) = ((f.1, f.2), forget seen needle given ks a)

  -- One more in front, that none of those found was beaten by.
  First-later :
      (seen more : List Text) (needle : Text) (t : Suggestion) (given : List Suggestion)
      (ks : List (Suggestion × ℕ))
      → ((k : Suggestion × ℕ)
          → seen_in (suggestion_key k.0) more ≡ false
          → (seen_in (suggestion_key k.0) seen ≡ false)
            × (SameName t k.0 → (n : ℕ) → Rated needle t n → ⊥))
      → All (Fresh more needle given) ks
      → All (Fresh seen needle (t ∷ given)) ks
  First-later seen more needle t given [] h a = tt
  First-later seen more needle t given (k ∷ ks) h ((q, r, (b, f, e, p)), a) =
      let (old, beaten) = h k q in
      ((old, r, (t ∷ b, f, ap (◌∷◌ t) e, (beaten, p))), First-later seen more needle t given ks h a)

  -- A suggestion that is passed over.
  passed :
      (seen : List Text) (needle : Text) (t : Suggestion) (given : List Suggestion)
      (ks : List (Suggestion × ℕ))
      → ((s : Suggestion)
          → seen_in (suggestion_key s) seen ≡ false
          → SameName t s
          → (n : ℕ) → Rated needle t n
          → ⊥)
      → Loop seen needle given ks
      → Loop seen needle (t ∷ given) ks
  unfolding suggestion_key
  passed seen needle t given ks stop (a, d, c) =
      (First-later seen seen needle t given ks (λ k q. (q, stop k.0 q)) a, d, named)
    where
      named :
          (s : Suggestion) (n : ℕ)
          → Among s (t ∷ given)
          → Rated needle s n
          → seen_in (suggestion_key s) seen ≡ false
          → Named s ks
      named s n (inl e) r q =
          absurd (stop s q (ap suggestion_key e) n (subst (λ x. Rated needle x n) (sym e) r))
      named s n (inr m) r q = c s n m r q

  apart :
      (seen : List Text) (needle : Text) (t : Suggestion) (given : List Suggestion)
      (ks : List (Suggestion × ℕ))
      → All (Fresh (suggestion_key t ∷ seen) needle given) ks
      → All (λ (l : Suggestion × ℕ). SameName t l.0 → ⊥) ks
  unfolding suggestion_key
  apart seen needle t given [] a = tt
  apart seen needle t given (k ∷ ks) (f, a) = (
    (seen_then (suggestion_key k.0) (suggestion_key t) seen f.0).1,
    apart seen needle t given ks a,
  )

  -- A suggestion that is taken.
  taken :
      (seen : List Text) (needle : Text) (t : Suggestion) (m : ℕ) (given : List Suggestion)
      (ks : List (Suggestion × ℕ))
      → seen_in (suggestion_key t) seen ≡ false
      → Rated needle t m
      → Loop (suggestion_key t ∷ seen) needle given ks
      → Loop seen needle (t ∷ given) ((t, m) ∷ ks)
  unfolding suggestion_key
  taken seen needle t m given ks new r (a, d, c) = (
    (
      (new, r, ([], given, refl, tt)),
      First-later seen (suggestion_key t ∷ seen) needle t given ks
          (λ k q.
            let (old, other) = seen_then (suggestion_key k.0) (suggestion_key t) seen q in
            (old, λ same n _. other same))
          a,
    ),
    (apart seen needle t given ks a, d),
    named,
  )
    where
      named :
          (s : Suggestion) (n : ℕ)
          → Among s (t ∷ given)
          → Rated needle s n
          → seen_in (suggestion_key s) seen ≡ false
          → Named s ((t, m) ∷ ks)
      named s n (inl e) r q = inl (ap suggestion_key e)
      named s n (inr i) r q =
          elim (Bool-cases (seen_in (suggestion_key s) (suggestion_key t ∷ seen))) [
            | inl e ↦ inl (seen_now (suggestion_key s) (suggestion_key t) seen e q)
            | inr e ↦ inr (c s n i r e)
          ]

  rank_loop-Loop :
      (needle : Text) (seen : List Text) (given : List Suggestion)
      → Loop seen needle given (rank_loop needle seen given)
  unfolding rank_loop suggestion_key
  rank_loop-Loop needle seen [] = (tt, tt, λ s n i. absurd i)
  rank_loop-Loop needle seen (t ∷ given) =
      if_cases (Loop seen needle (t ∷ given)) (seen_in (suggestion_key t) seen)
        (λ e. passed seen needle t given _ (again e) (rank_loop-Loop needle seen given))
        (λ e.
          rated e (score needle t) refl _ _ (rank_loop-Loop needle seen given)
            (rank_loop-Loop needle (suggestion_key t ∷ seen) given))
    where
      again :
          seen_in (suggestion_key t) seen ≡ true
          → (s : Suggestion) → seen_in (suggestion_key s) seen ≡ false
          → SameName t s
          → (n : ℕ) → Rated needle t n
          → ⊥
      again e s q same n r = cc (e, q, same)

      rated :
          seen_in (suggestion_key t) seen ≡ false
          → (o : Option ℕ) → score needle t ≡ o
          → (without with_it : List (Suggestion × ℕ)) → Loop seen needle given without
          → Loop (suggestion_key t ∷ seen) needle given with_it
          → Loop seen needle (t ∷ given) (keep o t without with_it)
      rated new none e x y a b =
          passed seen needle t given _ (λ s q same n r. cc (e, Rated-score needle t n r)) a
      rated new (some m) e x y a b = taken seen needle t m given _ new (score-Rated needle t m e) b

  ranks_before_asym : Asymmetric ranks_before
  unfolding ranks_before
  ranks_before_asym (s, m) (t, n) h =
      ground (arith, text_lt_asym (to_lower s.text) (to_lower t.text))

  Sorted-InOrder : (ks : List (Suggestion × ℕ)) → Sorted ranks_before ks → InOrder ks
  unfolding ranks_before
  Sorted-InOrder [] h = tt
  Sorted-InOrder (k ∷ []) h = tt
  Sorted-InOrder ((s, m) ∷ (t, n) ∷ ks) (h, r) = (ground arith, Sorted-InOrder ((t, n) ∷ ks) r)

  -- rank offers the first 40 of a list in which of two neighbours the better rating stands
  -- first, and with equal ratings the text that is not greater, without regard to case. The
  -- list holds, each once, exactly the names that were given with a rating, where a name is
  -- kind and text without regard to case; each entry is the first given of its name that has a
  -- rating. The rating is 1 if nothing is looked for, else 0 if the lowered text starts with
  -- the lowered prefix and 2 if it only holds it further inside, and 3 more for a keyword;
  -- other suggestions have none.
  pub rank_lem :
      (prefix : Text) (given : List Suggestion)
      → (found : List (Suggestion × ℕ)) × (ordered : List (Suggestion × ℕ)) × Chosen
          (to_lower prefix)
          given
          found
        × Perm ordered found
        × InOrder ordered
        × (rank prefix given ≡ map (λ (k : Suggestion × ℕ). k.0) (take 40 ordered))
  unfolding rank seen_in
  rank_lem prefix given =
      let found = rank_loop (to_lower prefix) [] given in
      let (fresh, distinct, all) = rank_loop-Loop (to_lower prefix) [] given in
      (
        found,
        sort_by ranks_before found,
        (forget [] (to_lower prefix) given found fresh, distinct, λ s n i r. all s n i r refl),
        sort_by-Perm ranks_before found,
        Sorted-InOrder _ (sort_by-Sorted ranks_before ranks_before_asym found),
        refl,
      )
