-- ===== src/Classify/Cte.antt =====
-- A write hidden in a WITH statement is found at any depth.
use db_crawler.Classify.Leading.{first_keyword}
use db_crawler.Classify.ReadOnly.{with_not_select}
use db_crawler.Classify.Words.{scan_keywords}
use db_crawler.Classify.{any_of, classify, classify_cte, dml, is_read_only, write_words}
use db_crawler.Prelude.{
  ◌≡◌, refl, subst, sym, inl, inr, Bool, true, false, List, [], ◌∷◌, ◌++◌, arith, if◌then◌else◌,
  length,
}
use db_crawler.Scan.Prose.{Prose}
use db_crawler.Text.Words.{IsOneOf, one_of_iff}
use db_crawler.Text.{Text, Unicode, codes, one_of, to_upper}
use db_crawler.Classify.Found.{Among, found_behind, IsWord, Stops}

module _ ⦃u : Unicode⦄ where
  any_of-Among :
      (w : Text) (ws : List Text)
      → one_of w write_words ≡ true
      → Among w ws
      → any_of ws write_words ≡ true
  unfolding any_of
  any_of-Among w [] h m = absurd m
  any_of-Among w (x ∷ ws) h (inl e) = rw (subst (λ y. one_of y write_words ≡ true) (sym e) h)
  any_of-Among w (x ∷ ws) h (inr m) = rw (any_of-Among w ws h m) (either (one_of x write_words))
    where
      either : (b : Bool) → (if b then true else true) ≡ true
      either true = refl
      either false = refl

  classify_with_write :
      (sql : Text)
      → first_keyword sql ≡ codes "WITH"
      → any_of (scan_keywords sql) write_words ≡ true
      → (classify sql ≡ dml) × (is_read_only sql ≡ false)
  unfolding is_read_only classify classify_cte
  classify_with_write sql k h = ground (
    arith,
    with_not_select (first_keyword sql) k,
    (one_of_iff (first_keyword sql) ("WITH" ∷ [])).1 (inl k),
  )

  -- A statement whose first keyword is WITH and that holds INSERT, UPDATE, DELETE or MERGE, in
  -- any case of the letters, behind a blank and behind any text of plain runes and string
  -- literals without backslashes, and with no identifier rune after it, is classified as a
  -- write and rejected by IsReadOnly, at whatever depth of parentheses the word stands.
  pub classify_hidden_write :
      (p w t : Text)
      → Prose p
      → IsWord w
      → Stops t
      → IsOneOf (to_upper w) write_words
      → first_keyword (p ++ (b' ' ∷ (w ++ t))) ≡ codes "WITH"
      → (classify (p ++ (b' ' ∷ (w ++ t))) ≡ dml) × (is_read_only (p ++ (b' ' ∷ (w ++ t))) ≡ false)
  classify_hidden_write p w t prose word stop write with_first =
      classify_with_write sql with_first (
        any_of-Among (to_upper w) (scan_keywords sql)
          ((one_of_iff (to_upper w) write_words).1 write) found)
    where
      sql : Text
      sql = p ++ (b' ' ∷ (w ++ t))

      found : Among (to_upper w) (scan_keywords sql)
      found =
          unfold scan_keywords in
          found_behind w t word stop (length p) (length sql) p prose (omega arith) (omega arith)
