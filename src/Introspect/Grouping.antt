-- ===== src/Introspect/Grouping.antt =====
-- core/dbcore/introspect.go: the grouping of catalog rows against a description by names.
use db_crawler.Introspect.{group_loop, collect, group_rows, cons_both}
use db_crawler.Prelude.{
  ◌≡◌, refl, ap, subst, sym, ◌∙◌, true, List, [], ◌∷◌, Option, none, some, inl, inr, ◌⊎◌, arith,
  Option-cases, All,
}
use db_crawler.Session.Maps.{text_eq_refl}
use db_crawler.Session.{find}
use db_crawler.Text.{Text}
use db_crawler.Introspect.Steps.{has, found, entry, firsts, Agrees, loop-find, loop-order}

module _ {Row Info : Type 0} (name_of : Row → Text) (start : Row → Info)
    (add : Row → Info → Info) where
  -- Every name has its entry name_of start add.
  abbrev pub Collected : (Text → Option Info) → List Text → List Info → Type 0
  Collected look [] [] = Unit
  Collected look (k ∷ ks) (i ∷ is) = (look k ≡ some i) × Collected look ks is
  Collected look _ _ = ⊥

  pub Collected-ext :
      (f g : Text → Option Info)
      → ((k : Text) → f k ≡ g k)
      → (ks : List Text) (is : List Info) → Collected f ks is
      → Collected g ks is
  Collected-ext f g e [] [] c = tt
  Collected-ext f g e [] (i ∷ is) c = c
  Collected-ext f g e (k ∷ ks) [] c = c
  Collected-ext f g e (k ∷ ks) (i ∷ is) c = (sym (e k) ∙ c.0, Collected-ext f g e ks is c.1)

  collect-found :
      (ks : List Text) (m : List (Text × Info))
      → All (λ (k : Text). found (find k m) ≡ true) ks
      → (is : List Info) × (collect ks m ≡ some is) × Collected (λ (k : Text). find k m) ks is
  unfolding collect
  collect-found [] m a = ([], refl, tt)
  collect-found (k ∷ ks) m a = go (Option-cases (find k m)) (collect-found ks m a.1)
    where
      go :
          (find k m ≡ none) ⊎ ((i : Info) × (find k m ≡ some i))
          → (is : List Info) × (collect ks m ≡ some is) × Collected (λ (k : Text). find k m) ks is
          → (is : List Info) × (cons_both (find k m) (collect ks m) ≡ some is)
            × Collected (λ (k : Text). find k m) (k ∷ ks) is
      go (inl e) rest = absurd (cc (sym a.0 ∙ ap found e))
      go (inr (i, e)) (is, c, d) = (i ∷ is, rw (e, c) refl, (e, d))

  has_later :
      (j : Text) (ks js : List Text)
      → All (λ (k : Text). has k ks ≡ true) js
      → All (λ (k : Text). has k (j ∷ ks) ≡ true) js
  has_later j ks [] a = tt
  has_later j ks (i ∷ js) a = (rw (a.0) (ground arith), has_later j ks js a.1)

  has_self : (ks : List Text) → All (λ (k : Text). has k ks ≡ true) ks
  has_self [] = tt
  has_self (j ∷ ks) = (rw (text_eq_refl j) refl, has_later j ks ks (has_self ks))

  found_all :
      (order : List Text) (m : List (Text × Info))
      → Agrees name_of start add order m
      → (ks : List Text) → All (λ (k : Text). has k order ≡ true) ks
      → All (λ (k : Text). found (find k m) ≡ true) ks
  found_all order m g [] a = tt
  found_all order m g (k ∷ ks) a = (g k ∙ a.0, found_all order m g ks a.1)

  pub group_rows_lem :
      (rows : List Row)
      → (is : List Info) × (group_rows name_of start add rows ≡ some is)
        × Collected
            (λ (k : Text). entry name_of start add k rows none)
            (firsts name_of start add [] rows)
            is
  unfolding group_rows find
  group_rows_lem rows = (
    got.0,
    got.1,
    subst
        (λ (ks : List Text). Collected (λ (k : Text). entry name_of start add k rows none) ks got.0)
        order.0
        (Collected-ext (λ (k : Text). find k st.1)
          (λ (k : Text). entry name_of start add k rows none)
          (loop-find name_of start add rows [] []) st.0 got.0 got.2),
  )
    where
      st : List Text × List (Text × Info)
      st = group_loop name_of start add rows ([], [])

      order : (st.0 ≡ firsts name_of start add [] rows) × Agrees name_of start add st.0 st.1
      order = loop-order name_of start add rows [] [] (λ k. refl)

      got :
          (is : List Info) × (collect st.0 st.1 ≡ some is)
          × Collected (λ (k : Text). find k st.1) st.0 is
      got = collect-found st.0 st.1 (found_all st.0 st.1 order.1 st.0 (has_self st.0))
