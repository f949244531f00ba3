-- ===== src/Introspect/Steps.antt =====
-- core/dbcore/introspect.go: what each row does to the names and the entries of the grouping.
use db_crawler.Introspect.{group_step, group_loop, grouped}
use db_crawler.Prelude.{
  ◌≡◌, refl, ap, sym, ◌∙◌, Bool, true, false, ◌||◌, List, [], ◌∷◌, ◌++◌, Option, none, some, inl,
  inr, arith, Bool-cases, if◌then◌else◌, append-nil, append_assoc,
}
use db_crawler.Session.Maps.{find-put}
use db_crawler.Session.{find}
use db_crawler.Text.Words.{text_eq_iff}
use db_crawler.Text.{Text, text_eq}

-- The name is one of them.
abbrev pub has : Text → List Text → Bool
has k [] = false
has k (j ∷ js) = text_eq j k || has k js

abbrev pub found {ℓ} : {A : Type ℓ} → Option A → Bool
found none = false
found (some a) = true

module _ {Row Info : Type 0} (name_of : Row → Text) (start : Row → Info)
    (add : Row → Info → Info) where
  -- The names that are not seen yet, as they first come up.
  abbrev pub firsts : List Text → List Row → List Text
  firsts seen [] = []
  firsts seen (r ∷ rs) =
      if has (name_of r) seen
      then firsts seen rs
      else name_of r ∷ firsts (seen ++ name_of r ∷ []) rs

  -- What a row adds to.
  abbrev pub old : Row → Option Info → Info
  old r (some i) = i
  old r none = start r

  -- What the rows of one name make of its entry.
  abbrev pub entry : Text → List Row → Option Info → Option Info
  entry k [] o = o
  entry k (r ∷ rs) o = entry k rs (if text_eq (name_of r) k then some (add r (old r o)) else o)

  grouped-find :
      (o : Option Info) (r : Row) (order : List Text) (m : List (Text × Info)) (k : Text)
      → find (name_of r) m ≡ o
      → find k (grouped name_of start add o r order m).1
        ≡ (if text_eq (name_of r) k then some (add r (old r (find k m))) else find k m)
  grouped-find o r order m k e = put_value o ∙ same
    where
      put_value :
          (o : Option Info)
          → find k (grouped name_of start add o r order m).1
            ≡ (if text_eq (name_of r) k then some (add r (old r o)) else find k m)
      put_value none = find-put (name_of r) k (add r (start r)) m
      put_value (some i) = find-put (name_of r) k (add r i) m

      same :
          (if text_eq (name_of r) k then some (add r (old r o)) else find k m)
          ≡ (if text_eq (name_of r) k then some (add r (old r (find k m))) else find k m)
      same = elim (Bool-cases (text_eq (name_of r) k)) [
        | inl t ↦ rw t (
            ap (λ (x : Option Info). some (add r (old r x)))
              (sym e ∙ ap (λ (j : Text). find j m) ((text_eq_iff (name_of r) k).0 t)))
        | inr t ↦ rw t refl
      ]

  step-find :
      (r : Row) (order : List Text) (m : List (Text × Info)) (k : Text)
      → find k (group_step name_of start add r (order, m)).1
        ≡ (if text_eq (name_of r) k then some (add r (old r (find k m))) else find k m)
  unfolding group_step
  step-find r order m k = grouped-find (find (name_of r) m) r order m k refl

  -- The names in order are those with an entry.
  abbrev pub Agrees : List Text → List (Text × Info) → Type 0
  Agrees order m = (k : Text) → found (find k m) ≡ has k order

  has-last :
      (k j : Text) (order : List Text) → has k (order ++ j ∷ []) ≡ (has k order || text_eq j k)
  has-last k j [] = ground arith
  has-last k j (i ∷ order) = ground (arith, has-last k j order)

  or_comm : (a b : Bool) → (a || b) ≡ (b || a)
  or_comm a b = ground arith

  found_if :
      (b : Bool) (x : Info) (o : Option Info) → found (if b then some x else o) ≡ (b || found o)
  found_if true x o = refl
  found_if false x o = refl

  -- A row's turn appends its name when the name is new.
  step-order :
      (r : Row) (order : List Text) (m : List (Text × Info))
      → Agrees order m
      → (group_step name_of start add r (order, m)).0
        ≡ (if has (name_of r) order then order else order ++ name_of r ∷ [])
  unfolding group_step
  step-order r order m a =
      go (find (name_of r) m)
      ∙ ap (λ (b : Bool). if b then order else order ++ name_of r ∷ []) (a (name_of r))
    where
      go :
          (o : Option Info)
          → (grouped name_of start add o r order m).0
            ≡ (if found o then order else order ++ name_of r ∷ [])
      go none = refl
      go (some i) = refl

  has-seen :
      (n k : Text) (order : List Text)
      → (text_eq n k || has k order) ≡ has k (if has n order then order else order ++ n ∷ [])
  has-seen n k order = elim (Bool-cases (has n order)) [
    | inl h ↦ rw h (elim (Bool-cases (text_eq n k)) [
      | inl t ↦ rw t (sym h ∙ ap (λ (j : Text). has j order) ((text_eq_iff n k).0 t))
      | inr t ↦ rw t refl
    ])
    | inr h ↦ rw h (or_comm (text_eq n k) (has k order) ∙ sym (has-last k n order))
  ]

  step-Agrees :
      (r : Row) (order : List Text) (m : List (Text × Info))
      → Agrees order m
      → Agrees
          (group_step name_of start add r (order, m)).0
          (group_step name_of start add r (order, m)).1
  step-Agrees r order m a k =
      ap found (step-find r order m k)
      ∙ found_if (text_eq (name_of r) k) (add r (old r (find k m))) (find k m)
      ∙ ap (text_eq (name_of r) k ||◌) (a k)
      ∙ has-seen (name_of r) k order
      ∙ ap (has k) (sym (step-order r order m a))

  pub loop-find :
      (rs : List Row) (order : List Text) (m : List (Text × Info)) (k : Text)
      → find k (group_loop name_of start add rs (order, m)).1 ≡ entry k rs (find k m)
  unfolding group_loop
  loop-find [] order m k = refl
  loop-find (r ∷ rs) order m k =
      loop-find rs (group_step name_of start add r (order, m)).0
        (group_step name_of start add r (order, m)).1 k
      ∙ ap (entry k rs) (step-find r order m k)

  pub loop-order :
      (rs : List Row) (order : List Text) (m : List (Text × Info))
      → Agrees order m
      → ((group_loop name_of start add rs (order, m)).0 ≡ order ++ firsts order rs)
        × Agrees
            (group_loop name_of start add rs (order, m)).0
            (group_loop name_of start add rs (order, m)).1
  unfolding group_loop
  loop-order [] order m a = (sym (append-nil order), a)
  loop-order (r ∷ rs) order m a = go (
      loop-order rs (group_step name_of start add r (order, m)).0
        (group_step name_of start add r (order, m)).1 (step-Agrees r order m a))
    where
      next : List Text × List (Text × Info)
      next = group_step name_of start add r (order, m)

      extend :
          (b : Bool)
          → (if b then order else order ++ name_of r ∷ [])
              ++ firsts (if b then order else order ++ name_of r ∷ []) rs
            ≡ order
              ++ (if b then firsts order rs else name_of r ∷ firsts (order ++ name_of r ∷ []) rs)
      extend true = refl
      extend false = append_assoc order (name_of r ∷ []) _

      go :
          ((group_loop name_of start add rs next).0 ≡ next.0 ++ firsts next.0 rs)
            × Agrees
                (group_loop name_of start add rs next).0
                (group_loop name_of start add rs next).1
          → ((group_loop name_of start add rs next).0 ≡ order ++ firsts order (r ∷ rs))
            × Agrees
                (group_loop name_of start add rs next).0
                (group_loop name_of start add rs next).1
      go (e, g) = (
        e
            ∙ ap (λ (o : List Text). o ++ firsts o rs) (step-order r order m a)
            ∙ extend (has (name_of r) order),
        g,
      )
