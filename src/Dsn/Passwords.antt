-- ===== src/Dsn/Passwords.antt =====
-- core/dbcore/dsn.go: what does not depend on the password of a connection.
use db_crawler.Dsn.Redact.{Reparse, redacted}
use db_crawler.Dsn.{
  Config, Problem, validate, validate_engine, no_engine, report, engine_required_with_raw,
}
use db_crawler.Engine.{Engine, sqlserver, postgresql, mysql, sqlite, other}
use db_crawler.Prelude.{◌≡◌, refl, ap, false, not, List, [], ◌∷◌, if◌then◌else◌}
use db_crawler.Text.{Text, Unicode, is_nil}

-- The configuration under another password.
abbrev pub with_password : Config → Text → Config
with_password c p = record c { password = p }

pub redacted_same :
    (reparse : Reparse) (c : Config) (p q : Text)
    → is_nil p ≡ false
    → is_nil q ≡ false
    → redacted reparse (with_password c p) ≡ redacted reparse (with_password c q)
unfolding redacted
redacted_same reparse c p q h k = rw (h, k) refl

module _ ⦃u : Unicode⦄ where
  validate_engine_same :
      (e : Engine) (c : Config) (p q : Text)
      → validate_engine e (with_password c p) ≡ validate_engine e (with_password c q)
  unfolding validate_engine
  validate_engine_same sqlserver c p q = refl
  validate_engine_same postgresql c p q = refl
  validate_engine_same mysql c p q = refl
  validate_engine_same sqlite c p q = refl
  validate_engine_same (other []) c p q = refl
  validate_engine_same (other (x ∷ n)) c p q = refl

  pub validate_same :
      (c : Config) (p q : Text) → validate (with_password c p) ≡ validate (with_password c q)
  unfolding validate
  validate_same c p q =
      ap
        (λ (ps : List Problem).
          if not (is_nil c.raw_dsn)
          then report (no_engine c.engine) engine_required_with_raw
          else ps)
        (validate_engine_same c.engine c p q)
