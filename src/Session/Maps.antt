-- ===== src/Session/Maps.antt =====
-- Lookups in a map behind a write and behind a deletion.
use db_crawler.Prelude.{◌≡◌, refl, true, List, [], ◌∷◌, ◌++◌, none, some, arith, if◌then◌else◌}
use db_crawler.Session.{find, put, delete}
use db_crawler.Text.Words.{text_eq_iff}
use db_crawler.Text.{Text, text_eq}

pub text_eq_refl : (a : Text) → text_eq a a ≡ true
text_eq_refl a = (text_eq_iff a a).1 refl

module _ {ℓ} {V : Type ℓ} where
  pub find-put :
      (k j : Text) (v : V) (m : List (Text × V))
      → find j (put k v m) ≡ (if text_eq k j then some v else find j m)
  unfolding find put
  find-put k j v [] = refl
  find-put k j v ((i, w) ∷ m) =
      ground (arith, text_eq_iff k j, text_eq_iff i k, text_eq_iff i j, find-put k j v m)

  pub find-delete :
      (k j : Text) (m : List (Text × V))
      → find j (delete k m) ≡ (if text_eq k j then none else find j m)
  unfolding find delete
  find-delete k j [] = ground arith
  find-delete k j ((i, w) ∷ m) =
      ground (arith, text_eq_iff k j, text_eq_iff i k, text_eq_iff i j, find-delete k j m)

  -- A new key goes to the end.
  pub put_new :
      (k : Text) (v : V) (m : List (Text × V)) → find k m ≡ none → put k v m ≡ m ++ (k, v) ∷ []
  unfolding find put
  put_new k v [] h = refl
  put_new k v ((i, w) ∷ m) h = ground (arith, put_new k v m)

  -- What is not there cannot be deleted.
  pub delete_absent : (k : Text) (m : List (Text × V)) → find k m ≡ none → delete k m ≡ m
  unfolding find delete
  delete_absent k [] h = refl
  delete_absent k ((i, w) ∷ m) h = ground (arith, delete_absent k m)
