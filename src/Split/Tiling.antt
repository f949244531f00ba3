-- ===== src/Split/Tiling.antt =====
-- The statements of a buffer lie end to end, and only blanks and comments follow the last one.
use db_crawler.Classify.Leading.{is_only_comments, strip_leading, strip_loop}
use db_crawler.Classify.Progress.{strip_step_space}
use db_crawler.Engine.{Engine, is_sqlserver}
use db_crawler.Prelude.{
  ℕ, zero, suc, ◌-◌, ◌≤◌, ◌<◌, ◌≡◌, refl, ap, subst, sym, ◌∙◌, Bool, true, false, not, ◌&&◌, List,
  [], ◌∷◌, ◌++◌, inl, inr, arith, if◌then◌else◌, length, take, drop, Bool-cases, append_assoc,
  if_cases, take_all, take_before,
}
use db_crawler.Scan.Suffix.{
  Suffix, here, there, Suffix-length, Suffix-drop, Suffix-trans, Suffix-nil,
}
use db_crawler.Split.Plain.{split_step_separator}
use db_crawler.Split.Progress.{split_step-Suffix}
use db_crawler.Split.Reach.{Reach, stay, Reach-snoc, Reach-Suffix, strip_loop-Reach}
use db_crawler.Split.{Statement, split_step, flush, split_loop, split_statements}
use db_crawler.Text.{Text, Unicode, is_nil, is_space, trim_left, trim_space}
use db_crawler.Text.Trim.{trim_left-concat, trim_space-concat}

Suffix-split : {t s : Text} → Suffix t s → (q : Text) × (s ≡ q ++ t)
Suffix-split here = ([], refl)
Suffix-split (there {c} h) = let (q, e) = Suffix-split h in (c ∷ q, ap (◌∷◌ c) e)

pub semicolon_no_blank : is_space b';' ≡ false
unfolding is_space
semicolon_no_blank = refl

strip_leading_space :
    (c : ℕ) (s : Text) → is_space c ≡ true → strip_leading (c ∷ s) ≡ strip_leading s
unfolding strip_leading strip_loop
strip_leading_space c s h = ground (arith, strip_step_space c s h)

-- Blanks in front do not matter to `StripLeading`.
strip_leading-trim_left : (s : Text) → strip_leading (trim_left s) ≡ strip_leading s
unfolding trim_left
strip_leading-trim_left [] = refl
strip_leading-trim_left (c ∷ s) = elim (Bool-cases (is_space c)) [
  | inl e ↦ rw e (strip_leading-trim_left s ∙ sym (strip_leading_space c s e))
  | inr e ↦ rw e refl
]

no_comment : is_only_comments (trim_space []) ≡ true
unfolding is_only_comments trim_space
no_comment = refl

only_comments_nil : is_only_comments [] ≡ true
unfolding is_only_comments
only_comments_nil = refl

only_comments :
    (t : Text) → (not (is_nil t) && not (is_only_comments t)) ≡ false → is_only_comments t ≡ true
only_comments [] h = only_comments_nil
only_comments (c ∷ s) h = ground arith

kept : (t : Text) → is_only_comments t ≡ false → (not (is_nil t) && not (is_only_comments t)) ≡ true
kept [] h = absurd (cc only_comments_nil)
kept (c ∷ s) h = rw h

module _ ⦃u : Unicode⦄ (e : Engine) where
  -- A piece that ends at a separator is a statement.
  piece_kept :
      {from : Text} (next : Text)
      → Reach e from (b';' ∷ next)
      → (p : Text) × (from ≡ p ++ next) × (is_only_comments (trim_space p) ≡ false)
  unfolding is_only_comments strip_leading
  piece_kept next r =
      let (q, eq) = Suffix-split (Reach-Suffix e r) in
      let p = q ++ b';' ∷ [] in
      let whole = eq ∙ sym (append_assoc q (b';' ∷ []) next) in
      let trimmed =
        trim_space-concat q b';' semicolon_no_blank
        ∙ sym (trim_left-concat q b';' semicolon_no_blank) in
      (
        p,
        whole,
        ap is_nil (ap strip_leading trimmed ∙ strip_leading-trim_left p)
            ∙ strip_loop-Reach e p next (length p) r whole refl (omega arith),
      )

  -- A list of statements covers what follows the text `from` of a buffer of `total` runes.
  abbrev TilesFrom : ℕ → Text → List Statement → Type 0
  TilesFrom total from [] = is_only_comments (trim_space from) ≡ true
  TilesFrom total from (st ∷ rest) =
      (next : Text) × Suffix next from
      × (length next < length from)
      × (st.start ≡ total - length from)
      × (st.end ≡ total - length next)
      × (st.text ≡ trim_space (take (length from - length next) from))
      × TilesFrom total next rest

  flush_last : (total : ℕ) (from : Text) → TilesFrom total from (flush total from [])
  unfolding flush
  flush_last total [] = no_comment
  flush_last total (c ∷ s) =
      if_cases (TilesFrom total (c ∷ s)) (not (is_nil text) && not (is_only_comments text))
        (λ h. ([], Suffix-nil (c ∷ s), omega arith, refl, refl, refl, no_comment))
        (λ h. ap (λ t. is_only_comments (trim_space t)) (sym whole) ∙ only_comments text h)
    where
      text : Text
      text = trim_space (take (length (c ∷ s) - 0) (c ∷ s))

      whole : take (length (c ∷ s) - 0) (c ∷ s) ≡ c ∷ s
      whole =
          ap (λ (n : ℕ). take n (c ∷ s)) {x = length (c ∷ s) - 0} {y = length (c ∷ s)} (omega arith)
          ∙ take_all (c ∷ s)

  -- At a separator the statement is always emitted.
  pub flush_kept :
      (total : ℕ) (from next : Text)
      → Reach e from (b';' ∷ next)
      → flush total from next
        ≡ record {
          text = trim_space (take (length from - length next) from);
          start = total - length from;
          end = total - length next;
        }
          ∷ []
  unfolding flush
  flush_kept total from next r =
      let (p, whole, more) = piece_kept next r in
      rw (kept _ (ap (λ t. is_only_comments (trim_space t)) (take_before p next whole) ∙ more))

  split_loop-TilesFrom :
      (f total : ℕ) (from s : Text)
      → Reach e from s
      → length s ≤ f
      → TilesFrom total from (split_loop f e total from s)
  unfolding split_loop
  split_loop-TilesFrom f total from [] r h = flush_last total from
  split_loop-TilesFrom zero total from (c ∷ s) r h = absurd (omega arith)
  split_loop-TilesFrom (suc f) total from (c ∷ s) r h =
      go (split_step e c s).1 refl (λ a b. split_loop-TilesFrom f total a b)
    where
      next : Text
      next = (split_step e c s).0

      shorter : length next ≤ length s
      shorter = Suffix-length (split_step-Suffix e c s)

      go :
          (separator : Bool)
          → (split_step e c s).1 ≡ separator
          → ((a b : Text)
              → Reach e a b
              → length b ≤ f
              → TilesFrom total a (split_loop f e total a b))
          → TilesFrom total from (
              (if separator then flush total from next else [])
              ++ split_loop f e total (if separator then next else from) next)
      go false eq ih = ih from next (Reach-snoc e c s r refl eq) (omega (arith, shorter))
      go true eq ih =
          let at = split_step_separator e c s eq in
          let reach = subst (λ x. Reach e from x) {y = b';' ∷ next} (cc (at.0, at.1)) r in
          let behind = Suffix-trans (there here) (Reach-Suffix e reach) in
          let left = Suffix-length (Reach-Suffix e reach) in
          rw (flush_kept total from next reach) (
            next,
            behind,
            omega arith,
            refl,
            refl,
            refl,
            ih next next stay (omega (arith, shorter)),
          )

-- A list of statements covers a buffer from the index `lo` on: each begins where the one before
-- ends, is not empty, and holds the trimmed text between its offsets; behind the last one come
-- blanks and comments only.
abbrev pub Tiles : Text → ℕ → List Statement → Type 0
Tiles sql lo [] = is_only_comments (trim_space (drop lo sql)) ≡ true
Tiles sql lo (st ∷ rest) =
    (st.start ≡ lo)
    × (st.start < st.end)
    × (st.end ≤ length sql)
    × (st.text ≡ trim_space (take (st.end - st.start) (drop st.start sql)))
    × Tiles sql st.end rest

module _ ⦃u : Unicode⦄ (e : Engine) (sql : Text) where
  TilesFrom-Tiles :
      (from : Text) (sts : List Statement)
      → Suffix from sql
      → TilesFrom e (length sql) from sts
      → Tiles sql (length sql - length from) sts
  TilesFrom-Tiles from [] suffix h = rw (Suffix-drop suffix) h
  TilesFrom-Tiles from (st ∷ rest) suffix (next, behind, less, start, end, text, more) =
      let longer = Suffix-length suffix in
      let dropped = ap (λ (n : ℕ). drop n sql) start ∙ Suffix-drop suffix in
      let cut_at : length from - length next ≡ st.end - st.start = omega arith in
      (
        start,
        omega arith,
        omega arith,
        text
            ∙ ap (λ (t : Text). trim_space (take (length from - length next) t)) (sym dropped)
            ∙ ap (λ (n : ℕ). trim_space (take n (drop st.start sql))) cut_at,
        subst (λ n. Tiles sql n rest) (sym end)
            (TilesFrom-Tiles next rest (Suffix-trans behind suffix) more),
      )

  -- For every engine but SQL Server, the statements of a buffer lie end to end from offset 0:
  -- each starts where the one before it ends, is not empty, ends inside the buffer, and its
  -- text is the trimmed slice between its offsets; behind the last one there are only blanks,
  -- comments and opening parentheses.
  pub split_statements-Tiles : is_sqlserver e ≡ false → Tiles sql 0 (split_statements e sql)
  unfolding split_statements
  split_statements-Tiles h = rw h (
      subst (λ n. Tiles sql n (split_loop (length sql) e (length sql) sql sql))
        {x = length sql - length sql} {y = 0} (omega arith)
        (TilesFrom-Tiles sql _ here
          (split_loop-TilesFrom e (length sql) (length sql) sql sql stay (omega arith))))
