-- ===== src/Text/Trim.antt =====
-- What strings.TrimSpace leaves of a text.
use db_crawler.Prelude.{
  ℕ, ◌≡◌, refl, ap, ◌∙◌, false, ◌&&◌, [], ◌∷◌, ◌++◌, inl, inr, Bool-cases, if◌then◌else◌,
}
use db_crawler.Text.{Text, is_space, is_nil, trim_left, trim_right, trim_space}

-- A last rune that is no blank stays, with all before it.
pub trim_right-concat :
    (s : Text) (c : ℕ) → is_space c ≡ false → trim_right (s ++ c ∷ []) ≡ s ++ c ∷ []
unfolding trim_right
trim_right-concat [] c h = rw h
trim_right-concat (x ∷ s) c h = rw (trim_right-concat s c h) (nonempty s)
  where
    nonempty :
        (s : Text)
        → (if is_nil (s ++ c ∷ []) && is_space x then [] else x ∷ (s ++ c ∷ [])) ≡ x ∷ (s ++ c ∷ [])
    nonempty [] = refl
    nonempty (y ∷ s) = refl

pub trim_left-concat :
    (s : Text) (c : ℕ) → is_space c ≡ false → trim_left (s ++ c ∷ []) ≡ trim_left s ++ c ∷ []
unfolding trim_left
trim_left-concat [] c h = rw h
trim_left-concat (x ∷ s) c h = elim (Bool-cases (is_space x)) [
  | inl e ↦ rw e (trim_left-concat s c h)
  | inr e ↦ rw e refl
]

pub trim_space-concat :
    (s : Text) (c : ℕ) → is_space c ≡ false → trim_space (s ++ c ∷ []) ≡ trim_left s ++ c ∷ []
unfolding trim_space
trim_space-concat s c h =
    ap trim_right (trim_left-concat s c h) ∙ trim_right-concat (trim_left s) c h
