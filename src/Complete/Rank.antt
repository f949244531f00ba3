-- ===== src/Complete/Rank.antt =====
-- core/dbcore/complete.go: suggestions, and which of them are offered in which order.
pub mod Rated
pub mod Offered
use db_crawler.Complete.Order.{sort_by, seen_in}
use db_crawler.Prelude.{
  ℕ, ◌+◌, Bool, true, false, List, [], ◌∷◌, ◌++◌, Option, none, some, ◌==◌, ltb, if◌then◌else◌,
  take, map,
}
use db_crawler.Text.Url.{text_lt}
use db_crawler.Text.{Text, Unicode, codes, to_lower, contains, strip_prefix, is_nil, text_eq}

pub record Suggestion : Type 0 where
  pub text : Text
  pub kind : Text
  pub detail : Text

pub record Completion : Type 0 where
  pub prefix : Text
  pub suggestions : List Suggestion

abbrev pub has_prefix : Option Text → Bool
has_prefix none = false
has_prefix (some rest) = true

-- The switch: `none` is a score below zero.
unfoldable pub match_score : Text → Text → Option ℕ
unfolding strip_prefix contains
match_score needle lower =
    if is_nil needle
    then some 1
    else if has_prefix (strip_prefix needle lower)
    then some 0
    else if contains lower needle
    then some 2
    else none

abbrev pub penalty : Bool → Option ℕ → Option ℕ
penalty is_keyword none = none
penalty true (some n) = some (n + 3)
penalty false (some n) = some n

abbrev pub keep :
    Option ℕ → Suggestion → List (Suggestion × ℕ) → List (Suggestion × ℕ) → List (Suggestion × ℕ)
keep none s without rest = without
keep (some n) s without rest = (s, n) ∷ rest

module _ ⦃u : Unicode⦄ where
  -- Keywords come behind names.
  unfoldable pub score : Text → Suggestion → Option ℕ
  unfolding match_score text_eq to_lower
  score needle s = penalty (text_eq s.kind (codes "keyword")) (match_score needle (to_lower s.text))

  unfoldable pub suggestion_key : Suggestion → Text
  unfolding to_lower
  suggestion_key s = s.kind ++ (0 ∷ to_lower s.text)

  unfoldable pub rank_loop : Text → List Text → List Suggestion → List (Suggestion × ℕ)
  unfolding suggestion_key
  rank_loop needle seen [] = []
  rank_loop needle seen (s ∷ rest) =
      let skipped = rank_loop needle seen rest in
      let kept = rank_loop needle (suggestion_key s ∷ seen) rest in
      if seen_in (suggestion_key s) seen then skipped else keep (score needle s) s skipped kept

  unfoldable pub ranks_before : Suggestion × ℕ → Suggestion × ℕ → Bool
  unfolding text_lt to_lower
  ranks_before (s, m) (t, n) =
      if m == n then text_lt (to_lower s.text) (to_lower t.text) else ltb m n

  unfoldable pub rank : Text → List Suggestion → List Suggestion
  unfolding rank_loop
  rank prefix suggestions =
      map (λ (k : Suggestion × ℕ). k.0)
        (take 40 (sort_by ranks_before (rank_loop (to_lower prefix) [] suggestions)))
