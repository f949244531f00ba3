-- ===== src/Dsn/Redact.antt =====
-- core/dbcore/dsn.go: connection settings without their passwords. `Reparse` stands for what net/url
-- does to a raw connection string: it is `none` unless url.Parse accepts the text and finds a
-- password in it, and else the text of the URL with that password replaced.
use db_crawler.Dsn.{Config}
use db_crawler.Prelude.{
  ℕ, ◌≡◌, refl, ap, sym, ◌∙◌, ◌≢◌, [], ◌∷◌, ◌++◌, Option, none, some, ◌==◌, ==_refl, append_assoc,
  if◌then◌else◌, arith, All,
}
use db_crawler.Text.{Text, codes, is_nil, cut, strip_prefix}

abbrev pub Reparse : Type 0
Reparse = Text → Option Text

-- The text before the last rune c, and the text from there on (strings.LastIndex).
unfoldable pub cut_last : ℕ → Text → Option (Text × Text)
cut_last c [] = none
cut_last c (x ∷ s) = elim (cut_last c s) [
  | some (before, from) ↦ some (x ∷ before, from)
  | none ↦ if x == c then some ([], x ∷ s) else none
]

abbrev pub dots : Text
dots = codes "•••"

-- `user:pass@tcp(...)`, which is not a URL
hide : Text → Text → Text → Text
unfolding cut
hide dsn before from = elim (cut (codes ":") before) [
  | none ↦ dsn
  | some (user, password) ↦ user ++ (b':' ∷ (dots ++ from))
]

unfoldable pub redact_plain : Text → Text
unfolding cut_last hide
redact_plain dsn = elim (cut_last b'@' dsn) [
  | none ↦ dsn
  | some (before, from) ↦ if is_nil before then dsn else hide dsn before from
]

unfoldable pub redact_dsn : Reparse → Text → Text
unfolding redact_plain
redact_dsn reparse dsn = elim (reparse dsn) [ some url ↦ url | none ↦ redact_plain dsn ]

unfoldable pub redacted : Reparse → Config → Config
unfolding redact_dsn
redacted reparse c = record c {
  password = if is_nil c.password then [] else dots;
  raw_dsn = if is_nil c.raw_dsn then [] else redact_dsn reparse c.raw_dsn;
}

abbrev pub Lacks : ℕ → Text → Type 0
Lacks c = All (λ (x : ℕ). x ≢ c)

cut_last-none : (c : ℕ) (s : Text) → Lacks c s → cut_last c s ≡ none
unfolding cut_last
cut_last-none c [] a = refl
cut_last-none c (x ∷ s) a = rw (cut_last-none c s a.1, cut_last) (ground (arith, a.0))

cut_last_lem :
    (c : ℕ) (before rest : Text)
    → Lacks c rest
    → cut_last c (before ++ (c ∷ rest)) ≡ some (before, c ∷ rest)
unfolding cut_last
cut_last_lem c [] rest a = rw (cut_last-none c rest a, cut_last) (rw (==_refl c) refl)
cut_last_lem c (x ∷ before) rest a = rw (cut_last_lem c before rest a, cut_last) refl

cut_colon :
    (user rest : Text)
    → Lacks b':' user
    → cut (codes ":") (user ++ (b':' ∷ rest)) ≡ some (user, rest)
unfolding cut strip_prefix
cut_colon [] rest a = refl
cut_colon (x ∷ user) rest a = ground (arith, cut_colon user rest a.1, a.0)

hide_lem :
    (dsn user password from : Text)
    → Lacks b':' user
    → (if is_nil (user ++ (b':' ∷ password))
        then dsn
        else hide dsn (user ++ (b':' ∷ password)) from)
      ≡ user ++ (b':' ∷ (dots ++ from))
unfolding hide
hide_lem dsn [] password from a = refl
hide_lem dsn (x ∷ user) password from a = rw (cut_colon (x ∷ user) password a, hide) refl

-- Of a raw connection string that is no URL with a password, of the form user:password@rest
-- with no colon in the user and no @ in the rest, redactDSN keeps the user and the rest and
-- replaces the password by dots, whatever runes the password holds.
pub redact_dsn_lem :
    (reparse : Reparse) (user password rest : Text)
    → reparse (user ++ (b':' ∷ (password ++ (b'@' ∷ rest)))) ≡ none
    → Lacks b':' user
    → Lacks b'@' rest
    → redact_dsn reparse (user ++ (b':' ∷ (password ++ (b'@' ∷ rest))))
      ≡ user ++ (b':' ∷ (dots ++ (b'@' ∷ rest)))
unfolding redact_dsn
redact_dsn_lem reparse user password rest no_url a b =
    rw (no_url, redact_dsn)
      (ap redact_plain (sym (append_assoc user (b':' ∷ password) (b'@' ∷ rest))) ∙ plain)
  where
    plain :
        redact_plain ((user ++ (b':' ∷ password)) ++ (b'@' ∷ rest))
        ≡ user ++ (b':' ∷ (dots ++ (b'@' ∷ rest)))
    plain =
        rw (cut_last_lem b'@' (user ++ (b':' ∷ password)) rest b, redact_plain)
          (hide_lem _ user password (b'@' ∷ rest) a)
