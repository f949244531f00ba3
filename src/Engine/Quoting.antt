-- ===== src/Engine/Quoting.antt =====
-- core/dbcore/engine.go: quoted names are read back as they were, whatever runes they hold.
use db_crawler.Engine.{
  Engine, sqlserver, postgresql, mysql, sqlite, other, double, quote_identifier, qualify,
  placeholder, is_sqlserver, is_postgresql,
}
use db_crawler.Prelude.{
  ℕ, ◌≡◌, ==_iff, refl, ap, sym, ◌∙◌, Bool, true, false, ◌||◌, [], ◌∷◌, ◌++◌, Option, none, some,
  inl, inr, ◌==◌, ==_refl, Bool-cases, if◌then◌else◌, append_assoc, append-nil,
}
use db_crawler.Text.Decimal.{itoa_injective}
use db_crawler.Text.{Text}

abbrev pub opens_with : ℕ → Text → Bool
opens_with q [] = false
opens_with q (c ∷ s) = c == q

abbrev put_first : ℕ → Option (Text × Text) → Option (Text × Text)
put_first c none = none
put_first c (some (name, rest)) = some (c ∷ name, rest)

-- A quoted name behind its opening rune, as the engines read it: the closing rune twice stands
-- for itself, and once it ends the name.
abbrev pub read_quoted : ℕ → Text → Option (Text × Text)
read_quoted q [] = none
read_quoted q (c ∷ []) = if c == q then some ([], []) else none
read_quoted q (c ∷ d ∷ s) =
    let escaped = read_quoted q s in
    let plain = read_quoted q (d ∷ s) in
    if c == q then (if d == q then put_first q escaped else some ([], d ∷ s)) else put_first c plain

abbrev pub open_rune : Engine → ℕ
open_rune sqlserver = b'['
open_rune mysql = b'`'
open_rune _ = b'"'

abbrev pub close_rune : Engine → ℕ
close_rune sqlserver = b']'
close_rune mysql = b'`'
close_rune _ = b'"'

abbrev pub read_name : Engine → Text → Option (Text × Text)
read_name e [] = none
read_name e (c ∷ s) = if c == open_rune e then read_quoted (close_rune e) s else none

abbrev pub second : Text → Option (Text × Text) → Option (Text × Text)
second schema (some (table, [])) = some (schema, table)
second schema _ = none

abbrev pub after_name : Engine → Option (Text × Text) → Option (Text × Text)
after_name e none = none
after_name e (some (name, [])) = some ([], name)
after_name e (some (name, c ∷ rest)) = if c == b'.' then second name (read_name e rest) else none

-- A name, or a schema and a name with a dot between them.
abbrev pub read_qualified : Engine → Text → Option (Text × Text)
read_qualified e s = after_name e (read_name e s)

read_quoted_past :
    (q c : ℕ) (s : Text) → (c == q) ≡ false → read_quoted q (c ∷ s) ≡ put_first c (read_quoted q s)
read_quoted_past q c [] h = rw h refl
read_quoted_past q c (d ∷ s) h = rw h refl

read_quoted_twice : (q : ℕ) (s : Text) → read_quoted q (q ∷ q ∷ s) ≡ put_first q (read_quoted q s)
read_quoted_twice q s =
    ap
      (λ (b : Bool).
        if b
        then (if b then put_first q (read_quoted q s) else some ([], q ∷ s))
        else put_first q (read_quoted q (q ∷ s)))
      (==_refl q)

read_quoted-double :
    (q : ℕ) (name rest : Text)
    → opens_with q rest ≡ false
    → read_quoted q (double q name ++ q ∷ rest) ≡ some (name, rest)
unfolding double
read_quoted-double q [] [] h = rw (==_refl q) refl
read_quoted-double q [] (d ∷ rest) h = rw (==_refl q, h) refl
read_quoted-double q (c ∷ name) rest h = elim (Bool-cases (c == q)) [
  | inl e ↦ rw e (
      read_quoted_twice q (double q name ++ q ∷ rest)
      ∙ ap (put_first q) (read_quoted-double q name rest h)
      ∙ ap (λ (d : ℕ). some (d ∷ name, rest)) (sym ((==_iff c q).0 e)))
  | inr e ↦ rw e (
      read_quoted_past q c (double q name ++ q ∷ rest) e
      ∙ ap (put_first c) (read_quoted-double q name rest h))
]

quote_identifier_form :
    (e : Engine) (name : Text)
    → quote_identifier e name ≡ open_rune e ∷ (double (close_rune e) name ++ close_rune e ∷ [])
unfolding quote_identifier
quote_identifier_form sqlserver name = refl
quote_identifier_form postgresql name = refl
quote_identifier_form mysql name = refl
quote_identifier_form sqlite name = refl
quote_identifier_form (other n) name = refl

read_name-quote_identifier :
    (e : Engine) (name rest : Text)
    → opens_with (close_rune e) rest ≡ false
    → read_name e (quote_identifier e name ++ rest) ≡ some (name, rest)
read_name-quote_identifier e name rest h =
    ap (λ (t : Text). read_name e (t ++ rest)) (quote_identifier_form e name)
    ∙ rw (==_refl (open_rune e)) (
        ap (read_quoted (close_rune e))
          (append_assoc (double (close_rune e) name) (close_rune e ∷ []) rest)
        ∙ read_quoted-double (close_rune e) name rest h)

no_dot : (e : Engine) (s : Text) → opens_with (close_rune e) (b'.' ∷ s) ≡ false
no_dot sqlserver s = refl
no_dot postgresql s = refl
no_dot mysql s = refl
no_dot sqlite s = refl
no_dot (other n) s = refl

read_alone : (e : Engine) (name : Text) → read_name e (quote_identifier e name) ≡ some (name, [])
read_alone e name =
    ap (read_name e) (sym (append-nil (quote_identifier e name)))
    ∙ read_name-quote_identifier e name [] refl

-- For every engine, a reader of quoted names, for which the closing rune twice stands for
-- itself, reads what Qualify makes of a schema and a table back as this schema and this table,
-- whatever runes they hold; an empty schema is read back as none.
pub read_qualified-qualify :
    (e : Engine) (schema table : Text)
    → read_qualified e (qualify e schema table) ≡ some (schema, table)
unfolding qualify
read_qualified-qualify e [] table = ap (after_name e) (read_alone e table)
read_qualified-qualify e (c ∷ schema) table =
    ap (after_name e) (
      read_name-quote_identifier e (c ∷ schema) (b'.' ∷ quote_identifier e table)
        (no_dot e (quote_identifier e table)))
    ∙ ap (second (c ∷ schema)) (read_alone e table)

-- On SQL Server and PostgreSQL, arguments at different positions have different placeholders.
pub placeholder_injective :
    (e : Engine) (m n : ℕ)
    → (is_sqlserver e || is_postgresql e) ≡ true
    → placeholder e m ≡ placeholder e n
    → m ≡ n
unfolding placeholder
placeholder_injective sqlserver m n h p = itoa_injective m n (cc p)
placeholder_injective postgresql m n h p = itoa_injective m n (cc p)
placeholder_injective mysql m n h p = absurd (cc h)
placeholder_injective sqlite m n h p = absurd (cc h)
placeholder_injective (other x) m n h p = absurd (cc h)
