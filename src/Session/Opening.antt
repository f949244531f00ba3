-- ===== src/Session/Opening.antt =====
-- core/dbcore/session.go: Open keeps the registry.
use db_crawler.Dsn.{Config, Problem}
use db_crawler.Dsn.Build.{dsn}
use db_crawler.Prelude.{
  ℕ, ◌+◌, ◌^◌, ◌≤◌, ◌<◌, ◌≡◌, refl, ap, subst, sym, ◌∙◌, false, List, [], ◌∷◌, ◌++◌, none, inl, inr,
  arith, ◌==◌, Bool-cases, All, ==_refl, ◌⊎◌, All-append,
}
use db_crawler.Session.Handles.{Entries, dbs, Spread, Distinct}
use db_crawler.Session.Maps.{put_new}
use db_crawler.Session.{
  Session, Manager, find, put, id_of, next_seq, close_handle, Dial, open_session, dial_in,
  OpenError,
}
use db_crawler.Text.Words.{text_eq_iff}
use db_crawler.Text.{Text, Unicode, codes, text_eq}
use db_crawler.Session.Registry.{Numbered, Registry, DbsBelow, fresh, dbs-append, Spread-append}

numbered_later : (a b : ℕ) (m : Entries) → a ≤ b → All (Numbered a) m → All (Numbered b) m
numbered_later a b [] l h = tt
numbered_later a b ((k, s) ∷ m) l h =
    ((h.0.0, (h.0.1.0, h.0.1.1, omega (arith, l, h.0.1.2))), numbered_later a b m l h.1)

below_later : (b : ℕ) (m : Entries) → DbsBelow b m → DbsBelow (b + 1) m
below_later b [] h = tt
below_later b ((k, s) ∷ m) h = (omega (arith, h.0), below_later b m h.1)

text_eq-false : (a b : Text) → text_eq a b ≡ false → text_eq b a ≡ false
text_eq-false a b h = ground (arith, text_eq_iff a b, text_eq_iff b a)

-- A key that is not the last entry's is still absent.
find-append_absent :
    (k id : Text) (s : Session) (m : Entries)
    → find k m ≡ none
    → text_eq id k ≡ false
    → find k (m ++ (id, s) ∷ []) ≡ none
unfolding find
find-append_absent k id s [] f n = rw n refl
find-append_absent k id s ((j, w) ∷ m) f n = ground (arith, find-append_absent k id s m)

Distinct-append :
    (id : Text) (s : Session) (m : Entries)
    → Distinct m
    → find id m ≡ none
    → Distinct (m ++ (id, s) ∷ [])
unfolding find
Distinct-append id s [] d f = (refl, tt)
Distinct-append id s ((k, w) ∷ m) d f = elim (Bool-cases (text_eq k id)) [
  | inl e ↦ absurd (cc (rw e at f))
  | inr e ↦ (
    find-append_absent k id s m d.0 (text_eq-false k id e),
    Distinct-append id s m d.1 (rw e at f),
  )
]

lt-== : (a b : ℕ) → a < b → (a == b) ≡ false
lt-== a b h = ground arith

-- A handle given out last and closed again leaves the others.
pub close_handle_last :
    (b : ℕ) (hs : List ℕ) → All (λ (h : ℕ). h < b) hs → close_handle b (hs ++ b ∷ []) ≡ hs
unfolding close_handle
close_handle_last b [] a = rw (==_refl b) refl
close_handle_last b (h ∷ hs) a = rw (lt-== h b a.0) (ap (◌∷◌ h) (close_handle_last b hs a.1))

-- A new session under the next number, with the next handle.
registered :
    (m : Manager) (seq : ℕ) (s : Session)
    → seq ≡ m.seq + 1
    → s.id ≡ id_of (codes "conn") seq
    → s.db ≡ m.next_handle
    → Registry m
    → Registry (record m {
      sessions = put s.id s m.sessions;
      seq = seq;
      handles = m.handles ++ m.next_handle ∷ [];
      next_handle = m.next_handle + 1;
    })
registered m seq s e i d r =
    subst
      (λ (es : Entries). Registry (record m {
        sessions = es;
        seq = seq;
        handles = m.handles ++ m.next_handle ∷ [];
        next_handle = m.next_handle + 1;
      }))
      (sym (put_new s.id s m.sessions absent))
      record {
        numbered =
            All-append (Numbered seq) m.sessions ((s.id, s) ∷ [])
              (numbered_later m.seq seq m.sessions (omega (arith, e)) r.numbered)
              ((refl, (seq, i, omega arith)), tt);
        distinct = Distinct-append s.id s m.sessions r.distinct absent;
        owned = rw (r.owned, sym d) (sym (dbs-append m.sessions ((s.id, s) ∷ [])));
        below =
            subst (All (λ (h : ℕ). h < m.next_handle + 1))
              (sym (dbs-append m.sessions ((s.id, s) ∷ [])))
              (All-append (λ (h : ℕ). h < m.next_handle + 1) (dbs m.sessions) (s.db ∷ [])
                (below_later m.next_handle m.sessions r.below) (omega (arith, d), tt));
        spread =
            subst Spread (sym (dbs-append m.sessions ((s.id, s) ∷ [])))
              (rw d (Spread-append (dbs m.sessions) m.next_handle r.spread r.below));
      }
  where
    absent : find s.id m.sessions ≡ none
    absent = rw (i, e) (fresh m.seq m.sessions r.numbered)

dial_in-Registry :
    (m : Manager) (cfg : Config) (now : ℕ) (dial : Dial)
    → m.seq + 1 < 2 ^ 64
    → Registry m
    → Registry (dial_in m cfg now dial).0
unfolding dial_in next_seq
dial_in-Registry m cfg now Dial.refused l r = r
dial_in-Registry m cfg now Dial.pinged_in_vain l r = record {
  numbered = r.numbered;
  distinct = r.distinct;
  owned =
      ap (λ (hs : List ℕ). close_handle m.next_handle (hs ++ m.next_handle ∷ [])) r.owned
      ∙ close_handle_last m.next_handle (dbs m.sessions) r.below;
  below = below_later m.next_handle m.sessions r.below;
  spread = r.spread;
}
dial_in-Registry m cfg now Dial.reached l r =
    registered m (next_seq m) _ (omega (arith, l)) refl refl r

module _ ⦃u : Unicode⦄ where
  -- Open keeps the registry well formed, whatever the configuration and whatever dialling
  -- comes to, as long as fewer than 2^64 - 1 ids have been given out: the ids of the sessions
  -- are distinct, equal their keys and have been given out, and the open handles are those of
  -- the sessions, one for each.
  pub open_session-Registry :
      (m : Manager) (cfg : Config) (now : ℕ) (dial : Dial)
      → m.seq + 1 < 2 ^ 64
      → Registry m
      → Registry (open_session m cfg now dial).0
  unfolding open_session
  open_session-Registry m cfg now dial l r = go (dsn cfg)
    where
      go :
          (o : List Problem ⊎ Text)
          → Registry
              (elim o as (λ _. Manager × (Session ⊎ OpenError)) [
                | inl problems ↦ (m, inr (OpenError.invalid problems))
                | inr _ ↦ dial_in m cfg now dial
              ]).0
      go (inl p) = r
      go (inr t) = dial_in-Registry m cfg now dial l r
