-- ===== src/Session/Interleaved.antt =====
-- core/dbcore/session.go and query.go: calls on one session that run at the same time. Each step is
-- one hold of a mutex. The session is the struct behind the pointer that `Get` hands out, so a call
-- may still work on it when Close has taken it out of the registry.
pub mod Inv
pub mod Steps
pub mod Cancelling
use db_crawler.Prelude.{
  ℕ, ◌+◌, ◌≡◌, Bool, true, false, List, [], ◌∷◌, ◌==◌, if◌then◌else◌, ◌≢◌, ◌⊎◌,
}
use db_crawler.Session.{Session, Manager, track, untrack, cancel, shut}
use db_crawler.Text.{Text, is_nil}

-- Where a call of `Execute` stands, with its operation id and its context.
pub data Phase : Type 0 where
  idle : Phase
  -- behind `Get`
  holding : Phase
  -- between `track` and `untrack`; the statements run here
  running : Text → ℕ → Phase
  -- the same without an operation id
  unnamed : ℕ → Phase
  -- before the deferred call of its own cancel function
  leaving : ℕ → Phase

pub record System : Type 0 where
  pub manager : Manager
  pub session : Session
  -- the session is in the registry
  pub registered : Bool
  pub calls : ℕ → Phase
  -- contexts made so far
  pub issued : ℕ

abbrev pub update : ℕ → Phase → (ℕ → Phase) → ℕ → Phase
update i p f j = if i == j then p else f j

-- No call runs under this id: the client gives each call an id of its own.
abbrev pub Unused : Text → (ℕ → Phase) → Type 0
Unused op calls = (j c : ℕ) → calls j ≢ running op c

-- `s.cancelAll(); s.db.Close()` on the struct, behind its removal from the registry.
abbrev pub closed : System → System
closed x = record x {
  manager = shut x.session x.manager;
  session = record x.session { running = [] };
  registered = false;
}

-- `Cancel` of an operation.
abbrev pub cancelling : Text → System → System
cancelling op x = record x { manager = (cancel x.manager x.session op).0 }

pub data Step (x : System) : System → Type 0 where
  get :
      (i : ℕ)
      → x.registered ≡ true
      → x.calls i ≡ idle
      → Step x (record x { calls = update i holding x.calls })
  track_it :
      (i : ℕ) (op : Text)
      → x.calls i ≡ holding
      → is_nil op ≡ false
      → Unused op x.calls
      → Step x (record x {
        session = track x.session op x.issued;
        calls = update i (running op x.issued) x.calls;
        issued = x.issued + 1;
      })
  go_unnamed :
      (i : ℕ)
      → x.calls i ≡ holding
      → Step x (record x { calls = update i (unnamed x.issued) x.calls; issued = x.issued + 1 })
  untrack_it :
      (i : ℕ) (op : Text) (c : ℕ)
      → x.calls i ≡ running op c
      → Step x (record x { session = untrack x.session op; calls = update i (leaving c) x.calls })
  leave_unnamed :
      (i c : ℕ) → x.calls i ≡ unnamed c → Step x (record x { calls = update i (leaving c) x.calls })
  release :
      (i c : ℕ)
      → x.calls i ≡ leaving c
      → Step x (record x {
        manager = record x.manager { cancelled = c ∷ x.manager.cancelled };
        calls = update i idle x.calls;
      })
  cancel_it : (op : Text) → x.registered ≡ true → Step x (cancelling op x)
  close_it : x.registered ≡ true → Step x (closed x)

-- From the moment when the session is registered.
pub data Reach (m : Manager) (s : Session) : System → Type 0 where
  start :
      s.running ≡ []
      → Reach m s
          (record { manager = m; session = s; registered = true; calls = λ i. idle; issued = 0 })
  later : {x y : System} → Reach m s x → Step x y → Reach m s y
