-- ===== src/Dsn/Validation.antt =====
-- core/dbcore/dsn.go: what validation rules out, and what listing the databases changes in it.
use db_crawler.Dsn.Build.{dsn, engine_dsn}
use db_crawler.Dsn.{
  Config, Problem, database_required, host_required, port_range, user_required, domain_required,
  engine_required_with_raw, validate, validate_engine, validate_network, for_enumeration, report,
  is_blank, no_engine,
}
use db_crawler.Engine.{Engine, sqlserver, postgresql, mysql, sqlite, other}
use db_crawler.Prelude.{
  ◌≡◌, refl, ap, sym, ◌∙◌, Bool, true, false, not, List, [], ◌∷◌, ◌++◌, inl, inr, ◌⊎◌, arith,
  Bool-cases, if◌then◌else◌,
}
use db_crawler.Text.{Text, Unicode, is_nil}

module _ ⦃u : Unicode⦄ where
  built :
      (e : Engine) (c : Config) → validate_engine e c ≡ [] → (t : Text) × (engine_dsn e c ≡ inr t)
  unfolding validate_engine engine_dsn
  built sqlserver c h = (_, refl)
  built postgresql c h = (_, refl)
  built mysql c h = (_, refl)
  built sqlite c h = (_, refl)
  built (other []) c h = absurd (cc h)
  built (other (x ∷ n)) c h = absurd (cc h)

  checked : (c : Config) → is_nil c.raw_dsn ≡ true → validate c ≡ validate_engine c.engine c
  unfolding validate
  checked c f =
      ap
        (λ (x : Bool).
          if not x
          then report (no_engine c.engine) engine_required_with_raw
          else validate_engine c.engine c)
        f

  -- DSN yields a connection string if Validate finds no problem, and otherwise fails with the
  -- problems that Validate found: the unknown-engine error at its end is never reached.
  pub dsn_lem :
      (c : Config)
      → ((validate c ≡ []) × ((t : Text) × (dsn c ≡ inr t)))
        ⊎ ((is_nil (validate c) ≡ false) × (dsn c ≡ inl (validate c)))
  unfolding dsn
  dsn_lem c = elim (Bool-cases (is_nil (validate c))) [
    | inl e ↦ inl (nil _ e, sent e (Bool-cases (is_nil c.raw_dsn)))
    | inr e ↦ inr (e, given e)
  ]
    where
      nil : (ps : List Problem) → is_nil ps ≡ true → ps ≡ []
      nil [] h = refl
      nil (p ∷ ps) h = absurd (cc h)

      given : is_nil (validate c) ≡ false → dsn c ≡ inl (validate c)
      given e =
          ap
            (λ (b : Bool).
              if not b
              then inl (validate c)
              else if not (is_nil c.raw_dsn)
              then inr c.raw_dsn
              else engine_dsn c.engine c)
            e

      form :
          (b : Bool)
          → is_nil (validate c) ≡ true
          → is_nil c.raw_dsn ≡ b
          → dsn c ≡ (if not b then inr c.raw_dsn else engine_dsn c.engine c)
      form b e f =
          ap
            (λ (x : Bool).
              if not x
              then inl (validate c)
              else if not (is_nil c.raw_dsn)
              then inr c.raw_dsn
              else engine_dsn c.engine c)
            e
          ∙ ap (λ (x : Bool). if not x then inr c.raw_dsn else engine_dsn c.engine c) f

      sent :
          is_nil (validate c) ≡ true
          → (is_nil c.raw_dsn ≡ true) ⊎ (is_nil c.raw_dsn ≡ false)
          → (t : Text) × (dsn c ≡ inr t)
      sent e (inl f) =
          let made = built c.engine c (sym (checked c f) ∙ nil _ e) in
          (made.0, form true e f ∙ made.1)
      sent e (inr f) = (c.raw_dsn, form false e f)

-- The problems but for a missing database.
abbrev pub but_database : List Problem → List Problem
but_database [] = []
but_database (Problem.database_required ∷ ps) = but_database ps
but_database (p ∷ ps) = p ∷ but_database ps

network_problems :
    (a b c d e : Bool)
    → report a host_required
        ++ (report b port_range
            ++ (report c user_required
                ++ (report false database_required ++ report e domain_required)))
      ≡ but_database (
          report a host_required
          ++ (report b port_range
              ++ (report c user_required
                  ++ (report d database_required ++ report e domain_required))))
network_problems a b c d e = ground arith

-- With a connection string given as it is, the database is not looked at.
enumerated :
    (e : Engine) (c : Config)
    → validate (for_enumeration (record c { engine = e }))
      ≡ but_database (validate (record c { engine = e }))
unfolding validate for_enumeration
enumerated sqlserver c = elim (Bool-cases (is_nil c.raw_dsn)) [
  | inl f ↦ rw f (network_problems _ _ _ false _)
  | inr f ↦ rw f refl
]
enumerated postgresql c = elim (Bool-cases (is_nil c.raw_dsn)) [
  | inl f ↦ elim (Bool-cases (is_blank c.database)) [
    | inl d ↦ rw (d, f) (network_problems _ _ _ true false)
    | inr d ↦ rw (d, f, validate_network, d) (network_problems _ _ _ false false)
  ]
  | inr f ↦ elim (Bool-cases (is_blank c.database)) [
    | inl d ↦ rw (d, f) refl
    | inr d ↦ rw (d, f) refl
  ]
]
enumerated mysql c = elim (Bool-cases (is_nil c.raw_dsn)) [
  | inl f ↦ rw f (network_problems _ _ _ false false)
  | inr f ↦ rw f refl
]
enumerated sqlite c = elim (Bool-cases (is_nil c.raw_dsn)) [
  | inl f ↦ rw f (ground arith)
  | inr f ↦ rw f refl
]
enumerated (other []) c = elim (Bool-cases (is_nil c.raw_dsn)) [
  | inl f ↦ rw f refl
  | inr f ↦ rw f refl
]
enumerated (other (x ∷ n)) c = elim (Bool-cases (is_nil c.raw_dsn)) [
  | inl f ↦ rw f refl
  | inr f ↦ rw f refl
]

-- Validate finds in what ForEnumeration makes of a connection the problems that it finds in
-- the connection itself, but for a missing database.
pub validate-for_enumeration :
    (c : Config) → validate (for_enumeration c) ≡ but_database (validate c)
validate-for_enumeration c = enumerated c.engine c
