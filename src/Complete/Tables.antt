-- ===== src/Complete/Tables.antt =====
-- core/dbcore/complete.go: the tables that a statement uses, by the names they go by there.
pub mod Progress
pub mod Rounds
use db_crawler.Complete.Order.{sort_by, seen_in}
use db_crawler.Prelude.{
  ℕ, zero, suc, Bool, true, false, not, ◌&&◌, ◌||◌, List, [], ◌∷◌, ◌++◌, Option, none, some, ◌==◌,
  if◌then◌else◌, length,
}
use db_crawler.Scan.{next_is, skip_quoted, skip_line_comment, skip_block_comment, is_ident_rune}
use db_crawler.Session.{put}
use db_crawler.Text.Url.{text_lt}
use db_crawler.Text.{
  Text, Unicode, codes, is_letter, span, one_of, to_upper, to_lower, cut, contains, equal_fold,
  is_nil, text_eq,
}

pub record TableRef : Type 0 where
  pub schema : Text
  pub name : Text

unfoldable pub is_reserved_follower : Text → Bool
unfolding one_of
is_reserved_follower w = one_of w (
    "WHERE" ∷ "JOIN" ∷ "INNER" ∷ "LEFT" ∷ "RIGHT" ∷ "FULL" ∷ "CROSS" ∷ "ON" ∷ "GROUP" ∷ "ORDER"
    ∷ "HAVING" ∷ "LIMIT" ∷ "UNION" ∷ "SET" ∷ "VALUES" ∷ "SELECT" ∷ "OFFSET" ∷ "FETCH" ∷ "USING"
    ∷ "WITH" ∷ "RETURNING" ∷ "OUTPUT" ∷ [])

-- The runes that the replacer drops.
abbrev pub is_quote : ℕ → Bool
is_quote c = c == b'"' || c == b'[' || c == b']' || c == b'`'

unfoldable pub unquote_identifier : Text → Text
unquote_identifier [] = []
unquote_identifier (c ∷ s) =
    let rest = unquote_identifier s in if is_quote c then rest else c ∷ rest

abbrev pub found_token : Option Text → List Text → List Text
found_token none ts = ts
found_token (some t) ts = t ∷ ts

-- The name and its parts; behind a dot the schema is cut off.
table_ref : Text → TableRef
unfolding cut
table_ref name = elim (cut (codes ".") name) [
  | none ↦ record { schema = []; name = name }
  | some (schema, table) ↦ record { schema = schema; name = table }
]

-- What stands for the table behind its name: the token behind AS, or the next one.
alias_token : List Text → Option Text
unfolding equal_fold
alias_token [] = none
alias_token (t ∷ []) = some t
alias_token (t ∷ t2 ∷ ts) = some (if equal_fold (codes "AS") t then t2 else t)

module _ ⦃u : Unicode⦄ where
  -- One round of the switch, at `c ∷ s`.
  unfoldable pub token_step : ℕ → Text → Text × Option Text
  unfolding span is_letter is_ident_rune unquote_identifier
  token_step c s =
      if c == b'\''
      then (skip_quoted b'\'' (c ∷ s), none)
      else if c == b'-' && next_is b'-' s
      then (skip_line_comment (c ∷ s), none)
      else if c == b'/' && next_is b'*' s
      then (skip_block_comment (c ∷ s), none)
      else if is_letter c || c == b'_' || c == b'"' || c == b'[' || c == b'`'
      then (let r = span (λ d. is_ident_rune d || d == b'.' || is_quote d) (c ∷ s) in
          (r.1, some (unquote_identifier r.0)))
      else (s, none)

  unfoldable pub token_loop : ℕ → Text → List Text
  token_loop fuel [] = []
  token_loop zero (c ∷ s) = []
  token_loop (suc fuel) (c ∷ s) =
      let (next, found) = token_step c s in found_token found (token_loop fuel next)

  unfoldable pub identifier_sequence : Text → List Text
  unfolding token_loop token_step
  identifier_sequence statement = token_loop (length statement) statement

  -- The alias goes into the map unless it is empty, dotted or reserved.
  with_alias : TableRef → Option Text → List (Text × TableRef) → List (Text × TableRef)
  unfolding contains is_reserved_follower to_upper to_lower put
  with_alias ref none refs = refs
  with_alias ref (some alias) refs =
      if not (is_nil alias)
        && not (contains alias (codes "."))
        && not (is_reserved_follower (to_upper alias))
      then put (to_lower alias) ref refs
      else refs

  -- A keyword's turn, from the tokens behind it.
  unfoldable pub reference_step : List Text → List (Text × TableRef) → List (Text × TableRef)
  unfolding with_alias alias_token table_ref is_reserved_follower to_upper to_lower put
  reference_step [] refs = refs
  reference_step (name ∷ ts) refs =
      let ref = table_ref name in
      if is_reserved_follower (to_upper name) || is_nil ref.name
      then refs
      else with_alias ref (alias_token ts) (put (to_lower ref.name) ref refs)

  unfoldable pub reference_loop : List Text → List (Text × TableRef) → List (Text × TableRef)
  unfolding reference_step one_of to_upper
  reference_loop [] refs = refs
  reference_loop (t ∷ ts) refs = reference_loop ts (
      if one_of (to_upper t) ("FROM" ∷ "JOIN" ∷ "UPDATE" ∷ "INTO" ∷ [])
      then reference_step ts refs
      else refs)

  unfoldable pub table_references : Text → List (Text × TableRef)
  unfolding identifier_sequence reference_loop
  table_references statement = reference_loop (identifier_sequence statement) []

  ref_key : TableRef → Text
  unfolding to_lower
  ref_key ref = to_lower (ref.schema ++ (b'.' ∷ ref.name))

  -- Over the map, in the order of its entries, which the language leaves open.
  unique_loop : List Text → List (Text × TableRef) → List TableRef
  unfolding ref_key text_eq
  unique_loop seen [] = []
  unique_loop seen ((k, ref) ∷ refs) =
      let key = ref_key ref in
      let old = unique_loop seen refs in
      let new = unique_loop (key ∷ seen) refs in if seen_in key seen then old else ref ∷ new

  -- Sorted by name, also an order that the library leaves open among equal names.
  unfoldable pub unique_refs : List (Text × TableRef) → List TableRef
  unfolding unique_loop text_lt
  unique_refs refs =
      sort_by (λ (a : TableRef) (b : TableRef). text_lt a.name b.name) (unique_loop [] refs)
