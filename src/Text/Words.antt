-- ===== src/Text/Words.antt =====
-- Equality of texts, and the words of a `case`.
use Prim.Native.String.{String}
use db_crawler.Prelude.{
  ◌≡◌, refl, ◌↔◌, ◌⊎◌, inl, inr, Bool, true, false, ◌||◌, List, [], ◌∷◌, arith,
}
use db_crawler.Text.{Text, codes, text_eq, one_of}

pub text_eq_iff : (a b : Text) → (text_eq a b ≡ true) ↔ (a ≡ b)
unfolding text_eq
text_eq_iff (x ∷ a) (y ∷ b) = ground (arith, text_eq_iff a b)
text_eq_iff _ _ = ground arith

or_iff {ℓ κ} :
    {a b : Bool} {A : Type ℓ} {B : Type κ}
    → (a ≡ true) ↔ A
    → (b ≡ true) ↔ B
    → ((a || b) ≡ true) ↔ (A ⊎ B)
or_iff {a = true} p q = (λ _. inl (p.0 refl), λ _. refl)
or_iff {a = false} p q = (λ h. inr (q.0 h), elim [ inl x ↦ absurd (cc (p.1 x)) | inr y ↦ q.1 y ])

-- The word is one of those listed.
abbrev pub IsOneOf : Text → List String → Type 0
IsOneOf w [] = ⊥
IsOneOf w (s ∷ rest) = (w ≡ codes s) ⊎ IsOneOf w rest

pub one_of_iff : (w : Text) (words : List String) → (one_of w words ≡ true) ↔ IsOneOf w words
unfolding one_of
one_of_iff w [] = (λ h. absurd (cc h), λ h. absurd h)
one_of_iff w (s ∷ rest) = or_iff (text_eq_iff w (codes s)) (one_of_iff w rest)
