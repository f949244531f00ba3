-- ===== src/Session/Handles.antt =====
-- The handles of the registered sessions, behind a deletion and behind a registration.
use db_crawler.Prelude.{
  ℕ, ◌⊎◌, Bool, ◌≡◌, refl, ap, subst, sym, ◌∙◌, true, false, List, [], ◌∷◌, none, some, inl, inr,
  arith, ◌==◌, ==_refl, Bool-cases, if◌then◌else◌,
}
use db_crawler.Session.Maps.{delete_absent}
use db_crawler.Session.{Session, find, delete, close_handle}
use db_crawler.Text.Words.{text_eq_iff}
use db_crawler.Text.{Text, text_eq}

abbrev pub Entries : Type 0
Entries = List (Text × Session)

abbrev pub dbs : Entries → List ℕ
dbs [] = []
dbs ((k, s) ∷ m) = s.db ∷ dbs m

abbrev pub NotIn : ℕ → List ℕ → Type 0
NotIn h [] = Unit
NotIn h (x ∷ hs) = ((x == h) ≡ false) × NotIn h hs

-- No number occurs twice.
abbrev pub Spread : List ℕ → Type 0
Spread [] = Unit
Spread (h ∷ hs) = NotIn h hs × Spread hs

-- No key occurs twice.
abbrev pub Distinct : Entries → Type 0
Distinct [] = Unit
Distinct ((k, s) ∷ m) = (find k m ≡ none) × Distinct m

pub close_handle_absent : (h : ℕ) (hs : List ℕ) → NotIn h hs → close_handle h hs ≡ hs
unfolding close_handle
close_handle_absent h [] n = refl
close_handle_absent h (x ∷ hs) n = rw (n.0) (ap (◌∷◌ x) (close_handle_absent h hs n.1))

-- What a lookup finds is the head or in the rest.
pub found_at :
    (id j : Text) (w : Session) (m : Entries) {s : Session}
    → find id ((j, w) ∷ m) ≡ some s
    → ((text_eq j id ≡ true) × (w ≡ s)) ⊎ ((text_eq j id ≡ false) × (find id m ≡ some s))
unfolding find
found_at id j w m f = elim (Bool-cases (text_eq j id)) [
  | inl e ↦ inl (e, cc (ap (λ (b : Bool). if b then some w else find id m) (sym e) ∙ f))
  | inr e ↦ inr (e, ap (λ (b : Bool). if b then some w else find id m) (sym e) ∙ f)
]

==_sym : (a b : ℕ) → (a == b) ≡ false → (b == a) ≡ false
==_sym a b h = ground arith

found_elsewhere :
    (h : ℕ) (id : Text) (m : Entries) {s : Session}
    → NotIn h (dbs m)
    → find id m ≡ some s
    → (s.db == h) ≡ false
unfolding find
found_elsewhere h id [] n f = absurd (cc f)
found_elsewhere h id ((j, w) ∷ m) {s} n f = elim (found_at id j w m f) [
  | inl e ↦ subst (λ (x : Session). (x.db == h) ≡ false) e.1 n.0
  | inr e ↦ found_elsewhere h id m n.1 e.1
]

-- Closing the handle of a registered session closes that of its entry and no other.
pub close_handle-delete :
    (id : Text) (m : Entries) {s : Session}
    → Distinct m
    → Spread (dbs m)
    → find id m ≡ some s
    → close_handle s.db (dbs m) ≡ dbs (delete id m)
unfolding find delete close_handle
close_handle-delete id [] d p f = absurd (cc f)
close_handle-delete id ((j, w) ∷ m) {s} d p f = elim (found_at id j w m f) [
  | inl e ↦
      subst (λ (x : Session). close_handle x.db (w.db ∷ dbs m) ≡ dbs (delete id ((j, w) ∷ m))) e.1
        (rw (e.0, ==_refl w.db)
          (close_handle_absent w.db (dbs m) p.0
            ∙ ap dbs (
                sym (
                  delete_absent id m
                    (subst (λ (k : Text). find k m ≡ none) ((text_eq_iff j id).0 e.0) d.0)))))
  | inr e ↦
      rw (e.0, ==_sym s.db w.db (found_elsewhere w.db id m p.0 e.1))
        (ap (◌∷◌ w.db) (close_handle-delete id m d.1 p.1 e.1))
]
