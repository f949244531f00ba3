-- ===== src/Session/Entries.antt =====
-- core/dbcore/session.go: the entries of the registry behind each operation, and the mark that makes
-- a session read-only.
use db_crawler.Dsn.Build.{dsn}
use db_crawler.Dsn.{Config, Problem}
use db_crawler.Prelude.{
  ℕ, ◌≡◌, refl, subst, sym, Bool, true, false, List, [], ◌∷◌, Option, none, some, ◌⊎◌, inl, inr,
  Option-cases, Bool-cases, if_rule, All,
}
use db_crawler.Session.Closing.{All-delete}
use db_crawler.Session.Maps.{delete_absent}
use db_crawler.Session.{
  Session, Manager, OpenError, Dial, find, put, delete, open_session, dial_in, close, close_all,
  cancel, shut, shut_all,
}
use db_crawler.Text.{Text, Unicode, text_eq}

pub close_sessions :
    (m : Manager) (id : Text)
    → ((close m id).sessions ≡ delete id m.sessions) × ((close m id).seq ≡ m.seq)
unfolding close shut
close_sessions m id = elim (Option-cases (find id m.sessions)) [
  | inl e ↦ rw (e, close) (sym (delete_absent id m.sessions e), refl)
  | inr (s, e) ↦ rw (e, close) (refl, refl)
]

pub shut_all_keeps :
    (es : List (Text × Session)) (m : Manager)
    → ((shut_all es m).sessions ≡ m.sessions) × ((shut_all es m).seq ≡ m.seq)
unfolding shut_all shut
shut_all_keeps [] m = (refl, refl)
shut_all_keeps ((id, s) ∷ es) m = shut_all_keeps es (shut s m)

module _ {ℓ} {V : Type ℓ} where
  pub All-put {κ} :
      (P : Text × V → Type κ) (k : Text) (v : V) (m : List (Text × V))
      → P (k, v)
      → All P m
      → All P (put k v m)
  unfolding put
  All-put P k v [] p a = (p, tt)
  All-put P k v ((j, w) ∷ m) p a =
      if_rule (All P) (text_eq j k) (p, a.1) (a.0, All-put P k v m p a.1)

  pub All-find {κ} :
      (P : V → Type κ) (k : Text) (m : List (Text × V)) (v : V)
      → find k m ≡ some v
      → All (λ (e : Text × V). P e.1) m
      → P v
  unfolding find
  All-find P k [] v h a = absurd (cc h)
  All-find P k ((j, w) ∷ m) v h a = elim (Bool-cases (text_eq j k)) [
    | inl e ↦ (let same : w ≡ v = cc (rw e at h) in subst P same a.0)
    | inr e ↦ All-find P k m v (rw e at h) a.1
  ]

abbrev pub IsMarked : Session → Type 0
IsMarked s = s.config.read_only ≡ true

-- Every session is marked read-only.
abbrev pub AllMarked : Manager → Type 0
AllMarked m = All (λ (e : Text × Session). IsMarked e.1) m.sessions

dial_in-AllMarked :
    (m : Manager) (cfg : Config) (now : ℕ) (dial : Dial)
    → cfg.read_only ≡ true
    → AllMarked m
    → AllMarked (dial_in m cfg now dial).0
unfolding dial_in
dial_in-AllMarked m cfg now Dial.refused h a = a
dial_in-AllMarked m cfg now Dial.pinged_in_vain h a = a
dial_in-AllMarked m cfg now Dial.reached h a =
    All-put (λ (e : Text × Session). IsMarked e.1) _ _ m.sessions h a

pub open_session-AllMarked :
    ⦃u : Unicode⦄ (m : Manager) (cfg : Config) (now : ℕ) (dial : Dial)
    → cfg.read_only ≡ true
    → AllMarked m
    → AllMarked (open_session m cfg now dial).0
unfolding open_session
open_session-AllMarked m cfg now dial h a = go (dsn cfg)
  where
    go :
        (o : List Problem ⊎ Text)
        → AllMarked
            (elim o as (λ _. Manager × (Session ⊎ OpenError)) [
              | inl problems ↦ (m, inr (OpenError.invalid problems))
              | inr _ ↦ dial_in m cfg now dial
            ]).0
    go (inl problems) = a
    go (inr t) = dial_in-AllMarked m cfg now dial h a

pub close-AllMarked : (m : Manager) (id : Text) → AllMarked m → AllMarked (close m id)
close-AllMarked m id a =
    subst (All (λ (e : Text × Session). IsMarked e.1)) (sym (close_sessions m id).0)
      (All-delete (λ (e : Text × Session). IsMarked e.1) id m.sessions a)

pub close_all-AllMarked : (m : Manager) → AllMarked (close_all m)
unfolding close_all
close_all-AllMarked m =
    subst (All (λ (e : Text × Session). IsMarked e.1))
      (sym (shut_all_keeps m.sessions (record m { sessions = [] })).0) tt

pub cancel-AllMarked :
    (m : Manager) (s : Session) (op : Text) → AllMarked m → AllMarked (cancel m s op).0
unfolding cancel
cancel-AllMarked m s op a = go (find op s.running)
  where
    go :
        (o : Option ℕ)
        → AllMarked
            (elim o as (λ _. Manager × Bool) [
              | none ↦ (m, false)
              | some c ↦ (record m { cancelled = c ∷ m.cancelled }, true)
            ]).0
    go none = a
    go (some c) = a
