-- ===== src/Session/Lifecycle.antt =====
-- core/dbcore/session.go: what Open, Get and Close promise each other; a connection test, which
-- opens a session and closes it again, leaves nothing behind.
use db_crawler.Dsn.{Config, Problem}
use db_crawler.Dsn.Build.{dsn}
use db_crawler.Prelude.{
  ℕ, ◌+◌, ◌^◌, ◌<◌, ◌≡◌, refl, ap, subst, sym, ◌∙◌, false, List, [], ◌∷◌, ◌++◌, Option, none, some,
  inl, inr, arith, Bool-cases, Option-cases, if◌then◌else◌, All, ◌⊎◌, if_cases,
}
use db_crawler.Session.Handles.{Entries}
use db_crawler.Session.Maps.{put_new, find-put, find-delete, text_eq_refl}
use db_crawler.Session.Opening.{close_handle_last}
use db_crawler.Session.Registry.{Registry, fresh}
use db_crawler.Session.{
  Session, Manager, find, put, delete, id_of, next_seq, close_handle, Dial, open_session, close,
  get, shut, dial_in, OpenError,
}
use db_crawler.Text.Words.{text_eq_iff}
use db_crawler.Text.{Text, Unicode, codes, text_eq}

-- A new session is found under its id and the others as before, and closing it restores the
-- registry; a failure leaves the sessions and the open handles as they were.
abbrev pub Opens : Manager → Manager × (Session ⊎ OpenError) → Type 0
Opens m (n, inl s) =
    (get n s.id ≡ some s)
    × ((j : Text) → text_eq s.id j ≡ false → get n j ≡ get m j)
    × ((close n s.id).sessions ≡ m.sessions)
    × ((close n s.id).handles ≡ m.handles)
Opens m (n, inr e) = (n.sessions ≡ m.sessions) × (n.handles ≡ m.handles)

delete_last :
    (id : Text) (s : Session) (m : Entries) → find id m ≡ none → delete id (m ++ (id, s) ∷ []) ≡ m
unfolding find delete
delete_last id s [] f = rw (text_eq_refl id) refl
delete_last id s ((k, w) ∷ m) f = elim (Bool-cases (text_eq k id)) [
  | inl e ↦ absurd (cc (rw e at f))
  | inr e ↦ rw e (ap (◌∷◌ (k, w)) (delete_last id s m (rw e at f)))
]

below_handles : (m : Manager) → Registry m → All (λ (h : ℕ). h < m.next_handle) m.handles
below_handles m r = subst (All (λ (h : ℕ). h < m.next_handle)) (sym r.owned) r.below

close_found :
    (n : Manager) (id : Text) {s : Session}
    → find id n.sessions ≡ some s
    → close n id ≡ shut s (record n { sessions = delete id n.sessions })
unfolding close
close_found n id {s} e =
    ap
      (λ (o : Option Session). elim o as (λ _. Manager) [
        | none ↦ n
        | some w ↦ shut w (record n { sessions = delete id n.sessions })
      ])
      e

registered-Opens :
    (m : Manager) (seq : ℕ) (s : Session)
    → seq ≡ m.seq + 1
    → s.id ≡ id_of (codes "conn") seq
    → s.db ≡ m.next_handle
    → Registry m
    → Opens m (
      record m {
        sessions = put s.id s m.sessions;
        seq = seq;
        handles = m.handles ++ m.next_handle ∷ [];
        next_handle = m.next_handle + 1;
      },
      inl s,
    )
unfolding get shut
registered-Opens m seq s e i d r = (
  here,
  (λ j n. find-put s.id j s m.sessions ∙ rw n refl),
  ap (λ (x : Manager). x.sessions) (close_found _ s.id here)
      ∙ ap (delete s.id) (put_new s.id s m.sessions absent)
      ∙ delete_last s.id s m.sessions absent,
  ap (λ (x : Manager). x.handles) (close_found _ s.id here)
      ∙ ap (λ (h : ℕ). close_handle h (m.handles ++ m.next_handle ∷ [])) d
      ∙ close_handle_last m.next_handle m.handles (below_handles m r),
)
  where
    absent : find s.id m.sessions ≡ none
    absent = rw (i, e) (fresh m.seq m.sessions r.numbered)

    here : find s.id (put s.id s m.sessions) ≡ some s
    here = find-put s.id s.id s m.sessions ∙ rw (text_eq_refl s.id) refl

dial_in-Opens :
    (m : Manager) (cfg : Config) (now : ℕ) (dial : Dial)
    → m.seq + 1 < 2 ^ 64
    → Registry m
    → Opens m (dial_in m cfg now dial)
unfolding dial_in next_seq
dial_in-Opens m cfg now Dial.refused l r = (refl, refl)
dial_in-Opens m cfg now Dial.pinged_in_vain l r =
    (refl, close_handle_last m.next_handle m.handles (below_handles m r))
dial_in-Opens m cfg now Dial.reached l r =
    registered-Opens m (next_seq m) _ (omega (arith, l)) refl refl r

module _ ⦃u : Unicode⦄ where
  -- From a well-formed registry with fewer than 2^64 - 1 ids given out, Open either registers
  -- a session, which Get then finds under its id while all other ids answer as before and
  -- closing it restores the sessions and the open handles; or fails, with the sessions and the
  -- open handles as they were, so that a failed connection leaks no handle.
  pub open_session-Opens :
      (m : Manager) (cfg : Config) (now : ℕ) (dial : Dial)
      → m.seq + 1 < 2 ^ 64
      → Registry m
      → Opens m (open_session m cfg now dial)
  unfolding open_session
  open_session-Opens m cfg now dial l r = go (dsn cfg)
    where
      go :
          (o : List Problem ⊎ Text)
          → Opens m (elim o as (λ _. Manager × (Session ⊎ OpenError)) [
            | inl problems ↦ (m, inr (OpenError.invalid problems))
            | inr _ ↦ dial_in m cfg now dial
          ])
      go (inl p) = (refl, refl)
      go (inr t) = dial_in-Opens m cfg now dial l r

-- Behind Close of an id, Get answers ErrNoSession for that id and what it answered before for
-- any other, whether or not the id was registered.
pub close-get :
    (m : Manager) (id j : Text) → get (close m id) j ≡ (if text_eq id j then none else get m j)
unfolding close get shut
close-get m id j = elim (Option-cases (find id m.sessions)) [
  | inl e ↦
      subst (λ (o : Option Session). get (after o) j ≡ (if text_eq id j then none else get m j))
        (sym e)
        (sym (
          if_cases (λ (o : Option Session). o ≡ find j m.sessions) (text_eq id j)
            (λ t. sym e ∙ ap (λ (k : Text). find k m.sessions) ((text_eq_iff id j).0 t))
            (λ _. refl)))
  | inr (s, e) ↦
      subst (λ (o : Option Session). get (after o) j ≡ (if text_eq id j then none else get m j))
        (sym e) (find-delete id j m.sessions)
]
  where
    after : Option Session → Manager
    after o = elim o [ none ↦ m | some s ↦ shut s (record m { sessions = delete id m.sessions }) ]
