-- ===== src/Complete/Order/Sorted.antt =====
-- Sorting yields a sorted list of the same elements.
use db_crawler.Complete.Order.{insert_by, sort_by}
use db_crawler.Prelude.{
  ℕ, zero, suc, ◌≡◌, Bool, true, false, List, [], ◌∷◌, if_cases, if_rule, take, All,
}

module _ {ℓ} {A : Type ℓ} (less : A → A → Bool) where
  -- No element stands behind one that comes after it.
  abbrev pub Sorted : List A → Type 0
  Sorted [] = Unit
  Sorted (x ∷ []) = Unit
  Sorted (x ∷ y ∷ ys) = (less y x ≡ false) × Sorted (y ∷ ys)

  -- Of two elements only one comes first.
  abbrev pub Asymmetric : Type ℓ
  Asymmetric = (x y : A) → less x y ≡ true → less y x ≡ false

  Sorted-insert_by : Asymmetric → (x : A) (xs : List A) → Sorted xs → Sorted (insert_by less x xs)
  unfolding insert_by
  Sorted-insert_by a x [] s = tt
  Sorted-insert_by a x (y ∷ []) s = if_cases Sorted (less y x) (λ h. (a y x h, tt)) (λ h. (h, tt))
  Sorted-insert_by a x (y ∷ z ∷ zs) s =
      if_cases Sorted (less y x) (λ h. behind (a y x h) (Sorted-insert_by a x (z ∷ zs) s.1))
        (λ h. (h, s))
    where
      behind :
          less x y ≡ false
          → Sorted (insert_by less x (z ∷ zs))
          → Sorted (y ∷ insert_by less x (z ∷ zs))
      behind h =
          if_cases (λ (l : List A). Sorted l → Sorted (y ∷ l)) (less z x) (λ e t. (s.0, t))
            (λ e t. (h, t))

  pub sort_by-Sorted : Asymmetric → (xs : List A) → Sorted (sort_by less xs)
  unfolding sort_by
  sort_by-Sorted a [] = tt
  sort_by-Sorted a (x ∷ xs) = Sorted-insert_by a x (sort_by less xs) (sort_by-Sorted a xs)

  pub take-Sorted : (n : ℕ) (xs : List A) → Sorted xs → Sorted (take n xs)
  take-Sorted zero xs s = tt
  take-Sorted (suc n) [] s = tt
  take-Sorted (suc zero) (x ∷ xs) s = tt
  take-Sorted (suc (suc n)) (x ∷ []) s = tt
  take-Sorted (suc (suc n)) (x ∷ y ∷ ys) s = (s.0, take-Sorted (suc n) (y ∷ ys) s.1)

  All-insert_by {κ} :
      (P : A → Type κ) (x : A) (xs : List A) → P x → All P xs → All P (insert_by less x xs)
  unfolding insert_by
  All-insert_by P x [] p a = (p, tt)
  All-insert_by P x (y ∷ ys) p a =
      if_rule (All P) (less y x) (a.0, All-insert_by P x ys p a.1) (p, a)

  pub All-sort_by {κ} : (P : A → Type κ) (xs : List A) → All P xs → All P (sort_by less xs)
  unfolding sort_by
  All-sort_by P [] a = tt
  All-sort_by P (x ∷ xs) a = All-insert_by P x (sort_by less xs) a.0 (All-sort_by P xs a.1)
