-- ===== src/Complete/Order.antt =====
-- The sorting and the sets of core/dbcore/complete.go.
pub mod Sorted
pub mod Perms
use db_crawler.Prelude.{Bool, true, false, ◌||◌, List, [], ◌∷◌, if◌then◌else◌}
use db_crawler.Text.{Text, text_eq}

-- sort.SliceStable
module _ {ℓ} {A : Type ℓ} (less : A → A → Bool) where
  unfoldable pub insert_by : A → List A → List A
  insert_by x [] = x ∷ []
  insert_by x (y ∷ ys) = let rest = insert_by x ys in if less y x then y ∷ rest else x ∷ y ∷ ys

  unfoldable pub sort_by : List A → List A
  unfolding insert_by
  sort_by [] = []
  sort_by (x ∷ xs) = insert_by x (sort_by xs)

-- `seen[key]`
unfoldable pub seen_in : Text → List Text → Bool
unfolding text_eq
seen_in k [] = false
seen_in k (j ∷ js) = text_eq j k || seen_in k js
