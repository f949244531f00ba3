-- ===== src/Classify/ReadOnly.antt =====
-- The allowlist behind `IsReadOnly`, stated with no reference to the order of its switches.
use Prim.Native.String.{String}
use db_crawler.Classify.Leading.{first_keyword}
use db_crawler.Classify.Words.{scan_keywords}
use db_crawler.Classify.{
  any_of, select_words, dml_words, ddl_words, tx_words, utility_words, write_words,
}
use db_crawler.Prelude.{
  ◌≡◌, refl, subst, sym, ◌↔◌, ◌⊎◌, inl, inr, true, false, List, [], ◌∷◌, arith, if◌then◌else◌, All,
  Bool-cases,
}
use db_crawler.Text.Words.{IsOneOf, one_of_iff}
use db_crawler.Text.{Text, Unicode, codes, one_of, contains}

-- None of the words of the text writes.
abbrev pub NoWrite : List Text → Type 0
NoWrite = All (λ w. ¬ IsOneOf w ("INSERT" ∷ "UPDATE" ∷ "DELETE" ∷ "MERGE" ∷ []))

pub any_of_iff : (ws : List Text) → (any_of ws write_words ≡ false) ↔ NoWrite ws
unfolding any_of
any_of_iff [] = (λ h. tt, λ h. refl)
any_of_iff (w ∷ ws) = (to (any_of_iff ws), from (any_of_iff ws))
  where
    to :
        (any_of ws write_words ≡ false) ↔ NoWrite ws
        → (if one_of w write_words then true else any_of ws write_words) ≡ false
        → NoWrite (w ∷ ws)
    to ih h = (λ m. cc (rw ((one_of_iff w write_words).1 m) at h), ih.0 (ground arith))

    from :
        (any_of ws write_words ≡ false) ↔ NoWrite ws
        → NoWrite (w ∷ ws)
        → (if one_of w write_words then true else any_of ws write_words) ≡ false
    from ih n = elim (Bool-cases (one_of w write_words)) [
      | inl e ↦ absurd (n.0 ((one_of_iff w write_words).0 e))
      | inr e ↦ rw e (ih.1 n.1)
    ]

module _ ⦃u : Unicode⦄ where
  -- What `IsReadOnly` lets through.
  abbrev pub Reads : Text → Type 0
  Reads sql =
      IsOneOf (first_keyword sql)
        ("SELECT" ∷ "TABLE" ∷ "VALUES" ∷ "SHOW" ∷ "EXPLAIN" ∷ "DESCRIBE" ∷ "DESC" ∷ "PRINT" ∷ [])
      ⊎ ((first_keyword sql ≡ codes "WITH") × NoWrite (scan_keywords sql))
      ⊎ ((first_keyword sql ≡ codes "PRAGMA") × (contains sql (codes "=") ≡ false))

  -- The words that reach the inner switch.
  abbrev IsUtility : Text → Type 0
  IsUtility w =
      (one_of w select_words ≡ false)
      × (one_of w ("WITH" ∷ []) ≡ false)
      × (one_of w dml_words ≡ false)
      × (one_of w ddl_words ≡ false)
      × (one_of w tx_words ≡ false)
      × (one_of w utility_words ≡ true)

  pub with_not_select : (w : Text) → w ≡ codes "WITH" → one_of w select_words ≡ false
  unfolding one_of
  with_not_select w e = subst (λ w. one_of w select_words ≡ false) (sym e) refl
