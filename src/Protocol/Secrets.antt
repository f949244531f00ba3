-- ===== src/Protocol/Secrets.antt =====
-- core/dbcore/protocol.go: what the reply of validateConfig says of a password.
use db_crawler.Dsn.Build.{dsn}
use db_crawler.Dsn.Passwords.{with_password, validate_same, redacted_same}
use db_crawler.Dsn.Redact.{Reparse}
use db_crawler.Dsn.{Config}
use db_crawler.Prelude.{◌≡◌, false, [], some, inl, inr, if◌then◌else◌}
use db_crawler.Protocol.Dispatch.{Core, dispatch, shown_dsn}
use db_crawler.Protocol.{Op, Request, Call, Payload, Explorer, ok}
use db_crawler.Query.{Database}
use db_crawler.Text.{Text, Unicode, is_nil}
use db_crawler.Values.{Formats}

shown_dsn_same :
    ⦃u : Unicode⦄ (reparse : Reparse) (c : Config) (p q : Text)
    → is_nil p ≡ false
    → is_nil q ≡ false
    → shown_dsn reparse (with_password c p) ≡ shown_dsn reparse (with_password c q)
unfolding shown_dsn
shown_dsn_same reparse c p q h k i =
    if is_nil (validate_same c p q i)
    then elim (dsn (redacted_same reparse c p q h k i)) [ inl problems ↦ [] | inr t ↦ t ]
    else []

module _ ⦃u : Unicode⦄ {fmt : Formats} {Arg : Type 0} (d : Database fmt Arg)
    (x : Explorer d.St) where
  -- The reply to validateConfig is the same for any two passwords that are not empty, with the
  -- connection otherwise the same: neither the problems nor the connection string that is
  -- shown depend on the password field.
  pub dispatch_hides :
      (core : Core d x) (call : Call) (req : Request Arg) (c : Config) (p q : Text)
      → is_nil p ≡ false
      → is_nil q ≡ false
      → dispatch d x core call
          (record req { op = Op.validate_config; config = some (with_password c p) })
        ≡ dispatch d x core call
            (record req { op = Op.validate_config; config = some (with_password c q) })
  unfolding dispatch
  dispatch_hides core call req c p q h k i = (
    core,
    ok (Payload.validated (validate_same c p q i) (shown_dsn_same call.reparse c p q h k i)),
  )
