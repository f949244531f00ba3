-- ===== src/Catalog/Scanning.antt =====
-- The loop over the rows of a query: what holds of every row that was scanned.
use db_crawler.Catalog.Driver.{Scan, Fetched, whole, kept, scan_rows, scanned}
use db_crawler.Prelude.{◌≡◌, refl, subst, List, [], ◌∷◌, Option, none, some, ◌⊎◌, inl, inr, All}
use db_crawler.Protocol.{Cause}

module _ {V A : Type 0} (p : Scan V A) (P : A → Type 0)
    (each : (vs : List V) (a : A) → whole (p vs) ≡ some a → P a) where
  scan_rows-All :
      (rows : List (List V ⊎ Cause)) (end : Option Cause) (found : List A)
      → scan_rows p rows end ≡ inl found
      → All P found
  unfolding scan_rows
  scan_rows-All [] none [] h = tt
  scan_rows-All [] none (a ∷ found) h = absurd (cc h)
  scan_rows-All [] (some cause) found h = absurd (cc h)
  scan_rows-All (inr cause ∷ rest) end found h = absurd (cc h)
  scan_rows-All (inl vs ∷ rest) end found h =
      go (whole (p vs)) (scan_rows p rest end) refl found h
        (λ (later : List A) (e : scan_rows p rest end ≡ inl later). scan_rows-All rest end later e)
    where
      go :
          (o : Option A) (r : List A ⊎ Cause)
          → whole (p vs) ≡ o
          → (found : List A) → kept o r ≡ inl found
          → ((later : List A) → r ≡ inl later → All P later)
          → All P found
      go none r e found h ih = absurd (cc h)
      go (some a) (inr cause) e found h ih = absurd (cc h)
      go (some a) (inl later) e [] h ih = absurd (cc h)
      go (some a) (inl later) e (b ∷ found) h ih =
          (subst P (cc h) (each vs a e), subst (All P) (cc h) (ih later refl))

  pub scanned-All :
      (answer : Fetched V ⊎ Cause) (found : List A) → scanned p answer ≡ inl found → All P found
  unfolding scanned
  scanned-All (inl f) found h = scan_rows-All f.fetches f.end_error found h
  scanned-All (inr cause) found h = absurd (cc h)
