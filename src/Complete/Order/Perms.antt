-- ===== src/Complete/Order/Perms.antt =====
-- Sorting loses, adds and repeats nothing.
use mathlib.Core.List.{Perm}
use mathlib.Core.List.Perm
use db_crawler.Complete.Order.{insert_by, sort_by}
use db_crawler.Prelude.{Bool, List, [], ◌∷◌, if_rule}

module _ {ℓ} {A : Type ℓ} (less : A → A → Bool) where
  insert_by-Perm : (x : A) (xs : List A) → Perm (insert_by less x xs) (x ∷ xs)
  unfolding insert_by
  insert_by-Perm x [] = Perm.refl (x ∷ [])
  insert_by-Perm x (y ∷ ys) =
      if_rule (λ (l : List A). Perm l (x ∷ y ∷ ys)) (less y x)
        (Perm.trans (Perm.cons y (insert_by-Perm x ys)) (Perm.swap x y ys)) (Perm.refl (x ∷ y ∷ ys))

  pub sort_by-Perm : (xs : List A) → Perm (sort_by less xs) xs
  unfolding sort_by
  sort_by-Perm [] = Perm.refl []
  sort_by-Perm (x ∷ xs) =
      Perm.trans (insert_by-Perm x (sort_by less xs)) (Perm.cons x (sort_by-Perm xs))
