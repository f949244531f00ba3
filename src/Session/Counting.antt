-- ===== src/Session/Counting.antt =====
-- core/dbcore/session.go: an operation on the registry gives out at most one id.
use db_crawler.Dsn.{Config, Problem}
use db_crawler.Dsn.Build.{dsn}
use db_crawler.Prelude.{
  ℕ, ◌+◌, ◌≤◌, ◌≡◌, refl, List, [], ◌∷◌, Option, none, some, ◌⊎◌, inl, inr, arith, Bool, true,
  false,
}
use db_crawler.Session.{
  Manager, Session, Dial, OpenError, dial_in, open_session, next_seq, find, delete, close, shut,
  close_all, shut_all, cancel,
}
use db_crawler.Text.{Text, Unicode}

next_seq_least : (m : Manager) → next_seq m ≤ m.seq + 1
unfolding next_seq
next_seq_least m = omega arith

dial_in_seq :
    (m : Manager) (cfg : Config) (now : ℕ) (dial : Dial)
    → (dial_in m cfg now dial).0.seq ≤ m.seq + 1
unfolding dial_in
dial_in_seq m cfg now Dial.refused = omega arith
dial_in_seq m cfg now Dial.pinged_in_vain = omega arith
dial_in_seq m cfg now Dial.reached = next_seq_least m

pub open_session_seq :
    ⦃u : Unicode⦄ (m : Manager) (cfg : Config) (now : ℕ) (dial : Dial)
    → (open_session m cfg now dial).0.seq ≤ m.seq + 1
unfolding open_session
open_session_seq m cfg now dial = go (dsn cfg)
  where
    go :
        (o : List Problem ⊎ Text)
        → (elim o as (λ _. Manager × (Session ⊎ OpenError)) [
          | inl problems ↦ (m, inr (OpenError.invalid problems))
          | inr _ ↦ dial_in m cfg now dial
        ]).0.seq
          ≤ m.seq + 1
    go (inl p) = omega arith
    go (inr t) = dial_in_seq m cfg now dial

pub close_seq : (m : Manager) (id : Text) → (close m id).seq ≡ m.seq
unfolding close shut
close_seq m id = go (find id m.sessions)
  where
    go :
        (o : Option Session)
        → (elim o as (λ _. Manager) [
          | none ↦ m
          | some s ↦ shut s (record m { sessions = delete id m.sessions })
        ]).seq
          ≡ m.seq
    go none = refl
    go (some s) = refl

shut_all_seq : (ms : List (Text × Session)) (m : Manager) → (shut_all ms m).seq ≡ m.seq
unfolding shut_all shut
shut_all_seq [] m = refl
shut_all_seq ((k, s) ∷ ms) m = shut_all_seq ms (shut s m)

pub close_all_seq : (m : Manager) → (close_all m).seq ≡ m.seq
unfolding close_all
close_all_seq m = shut_all_seq m.sessions (record m { sessions = [] })

pub cancel_seq : (m : Manager) (s : Session) (op : Text) → (cancel m s op).0.seq ≡ m.seq
unfolding cancel
cancel_seq m s op = go (find op s.running)
  where
    go :
        (o : Option ℕ)
        → (elim o as (λ _. Manager × Bool) [
          | none ↦ (m, false)
          | some c ↦ (record m { cancelled = c ∷ m.cancelled }, true)
        ]).0.seq
          ≡ m.seq
    go none = refl
    go (some c) = refl
