-- ===== src/Scan/Prose.antt =====
-- Text that the scanners pass over in one way whatever follows: runes that open nothing, and
-- string literals with their quotes doubled.
use db_crawler.Engine.{double}
use db_crawler.Prelude.{
  ℕ, ◌≡◌, refl, ap, ◌∙◌, Bool, true, false, not, ◌||◌, [], ◌∷◌, ◌++◌, inl, inr, arith, ◌==◌,
  Bool-cases, append_assoc,
}
use db_crawler.Scan.{quoted_loop, skip_quoted, next_is}
use db_crawler.Text.{Text, is_space}

-- None of the runes that a case of `SplitStatements` is about.
unfoldable pub is_plain : ℕ → Bool
is_plain c = not (
    c == b'\''
    || c == b'"'
    || c == b'`'
    || c == b'['
    || c == b'-'
    || c == b'#'
    || c == b'/'
    || c == b'$'
    || c == b';')

pub is_plain_space : (c : ℕ) → is_space c ≡ true → is_plain c ≡ true
unfolding is_plain is_space
is_plain_space c h = ground arith

-- No rune of the text is `d`.
abbrev pub Free : ℕ → Text → Type 0
Free d [] = Unit
Free d (c ∷ s) = ((c == d) ≡ false) × Free d s

-- `literal` is '…' with each quote of the body doubled.
unfoldable pub quote_with : ℕ → Text → Text
unfolding double
quote_with q body = q ∷ (double q body ++ q ∷ [])

pub data Prose : Text → Type 0 where
  end : Prose []
  rune : {c : ℕ} {s : Text} → is_plain c ≡ true → Prose s → Prose (c ∷ s)
  literal :
      (body : Text) {s : Text}
      → Free b'\\' body
      → next_is b'\'' s ≡ false
      → Prose s
      → Prose (quote_with b'\'' body ++ s)

quoted_loop_past :
    (q c : ℕ) (s : Text)
    → (c == q) ≡ false
    → (c == b'\\') ≡ false
    → quoted_loop q (c ∷ s) ≡ quoted_loop q s
unfolding quoted_loop
quoted_loop_past q c [] h k = refl
quoted_loop_past q c (d ∷ s) h k = rw (h, k)

quoted_loop_close : (q : ℕ) (s : Text) → next_is q s ≡ false → quoted_loop q (q ∷ s) ≡ s
unfolding quoted_loop
quoted_loop_close q [] h = refl
quoted_loop_close q (d ∷ s) h = ground arith

quoted_loop_double : (q : ℕ) (s : Text) → quoted_loop q (q ∷ q ∷ s) ≡ quoted_loop q s
unfolding quoted_loop
quoted_loop_double q s = ground arith

pub quoted_loop-quoted :
    (q : ℕ) (body s : Text)
    → Free b'\\' body
    → next_is q s ≡ false
    → quoted_loop q (double q body ++ (q ∷ s)) ≡ s
unfolding double
quoted_loop-quoted q [] s f h = quoted_loop_close q s h
quoted_loop-quoted q (c ∷ body) s f h = elim (Bool-cases (c == q)) [
  | inl e ↦ rw e (quoted_loop_double q _ ∙ quoted_loop-quoted q body s f.1 h)
  | inr e ↦ rw e (quoted_loop_past q c _ e f.0 ∙ quoted_loop-quoted q body s f.1 h)
]

-- A quoted text with its quotes doubled is skipped whole, if it holds no backslash.
pub skip_quoted-quote_with :
    (q : ℕ) (body s : Text)
    → Free b'\\' body
    → next_is q s ≡ false
    → skip_quoted q (quote_with q body ++ s) ≡ s
unfolding skip_quoted quote_with
skip_quoted-quote_with q body s f h =
    ap (quoted_loop q) (append_assoc (double q body) (q ∷ []) s) ∙ quoted_loop-quoted q body s f h

-- The same for what follows some prose.
pub next_is-Prose :
    (s t : Text)
    → next_is b'\'' s ≡ false
    → next_is b'\'' t ≡ false
    → next_is b'\'' (s ++ t) ≡ false
next_is-Prose [] t h k = k
next_is-Prose (c ∷ s) t h k = h
