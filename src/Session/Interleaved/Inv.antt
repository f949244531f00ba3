-- ===== src/Session/Interleaved/Inv.antt =====
-- core/dbcore/session.go: what holds of a session and the calls on it at all times.
use db_crawler.Prelude.{
  ℕ, ◌<◌, ◌≤◌, ◌++◌, ◌≡◌, sym, ◌∙◌, Bool, true, false, List, [], ◌∷◌, Option, none, some, ◌==◌, ◌≢◌,
  ◌⊎◌, inl, inr, Bool-cases, ==_iff, arith,
}
use db_crawler.Session.Interleaved.{Phase, idle, running, System, update}
use db_crawler.Session.{Session, Manager, find, cancel, cancel_functions}
use db_crawler.Text.{Text, text_eq}

-- The cancel function of the context has been called.
abbrev pub Called : ℕ → List ℕ → Type 0
Called c [] = ⊥
Called c (k ∷ ks) = (k ≡ c) ⊎ Called c ks

pub Called-append : (c : ℕ) (ks ls : List ℕ) → Called c ls → Called c (ks ++ ls)
Called-append c [] ls h = h
Called-append c (k ∷ ks) ls h = inr (Called-append c ks ls h)

-- cancelAll calls what is tracked.
pub cancelled_tracked :
    (op : Text) (c : ℕ) (m : List (Text × ℕ)) (ls : List ℕ)
    → find op m ≡ some c
    → Called c (cancel_functions m ++ ls)
unfolding find cancel_functions
cancelled_tracked op c [] ls h = absurd (cc h)
cancelled_tracked op c ((j, k) ∷ m) ls h = elim (Bool-cases (text_eq j op)) [
  | inl e ↦ inl (cc (rw e at h))
  | inr e ↦ inr (cancelled_tracked op c m ls (rw e at h))
]

pub running_parts : {op os : Text} {c d : ℕ} → running op c ≡ running os d → (op ≡ os) × (c ≡ d)
running_parts h = (cc h, cc h)

pub Called-cancel :
    (c : ℕ) (m : Manager) (s : Session) (op : Text)
    → Called c m.cancelled
    → Called c (cancel m s op).0.cancelled
unfolding cancel
Called-cancel c m s op h = go (find op s.running)
  where
    go :
        (o : Option ℕ)
        → Called c
            (elim o as (λ _. Manager × Bool) [
              | none ↦ (m, false)
              | some k ↦ (record m { cancelled = k ∷ m.cancelled }, true)
            ]).0.cancelled
    go none = h
    go (some k) = inr h

-- A call that runs after another one has moved: it is the one that moved, or it ran before.
pub moved :
    (i : ℕ) (p : Phase) (f : ℕ → Phase) (j : ℕ) (q : Phase)
    → update i p f j ≡ q
    → ((i ≡ j) × (p ≡ q)) ⊎ ((i ≢ j) × (f j ≡ q))
moved i p f j q h = elim (Bool-cases (i == j)) [
  | inl e ↦ inl ((==_iff i j).0 e, rw e at h)
  | inr e ↦ inr ((λ s. absurd (cc (sym e ∙ (==_iff i j).1 s))), rw e at h)
]

pub record Inv (x : System) : Type 0 where
  pub tracked :
      (i : ℕ) (op : Text) (c : ℕ)
      → x.calls i ≡ running op c
      → (find op x.session.running ≡ some c)
        ⊎ ((x.registered ≡ false) × Called c x.manager.cancelled)
  pub alone :
      (i j : ℕ) (op : Text) (c d : ℕ) → x.calls i ≡ running op c → x.calls j ≡ running op d → i ≡ j
  pub below : (i : ℕ) (op : Text) (c : ℕ) → x.calls i ≡ running op c → c < x.issued
  pub apart :
      (i j : ℕ) (op os : Text) (c : ℕ) → x.calls i ≡ running op c → x.calls j ≡ running os c → i ≡ j

pub start-Inv :
    (m : Manager) (s : Session)
    → Inv (record { manager = m; session = s; registered = true; calls = λ i. idle; issued = 0 })
start-Inv m s = record {
  tracked = λ i op c h. absurd (cc h);
  alone = λ i j op c d h k. absurd (cc h);
  below = λ i op c h. absurd (cc h);
  apart = λ i j op os c h k. absurd (cc h);
}

-- A call goes to a phase in which it does not run, and what the others rest on stays.
module _ (x : System) (v : Inv x) (i : ℕ) (p : Phase)
    (quiet : (op : Text) (c : ℕ) → p ≢ running op c) where
  pub others :
      (j : ℕ) (op : Text) (c : ℕ) → update i p x.calls j ≡ running op c → x.calls j ≡ running op c
  others j op c h = elim (moved i p x.calls j (running op c) h) [
    | inl e ↦ absurd (quiet op c e.1)
    | inr e ↦ e.1
  ]

  pub quiet-Inv :
      (m : Manager) (s : Session) (n : ℕ)
      → x.issued ≤ n
      → ((j : ℕ) (op : Text) (c : ℕ)
          → update i p x.calls j ≡ running op c
          → (find op s.running ≡ some c) ⊎ ((x.registered ≡ false) × Called c m.cancelled))
      → Inv (record x { manager = m; session = s; calls = update i p x.calls; issued = n })
  quiet-Inv m s n le t = record {
    tracked = t;
    alone = λ j k op c d h l. v.alone j k op c d (others j op c h) (others k op d l);
    below = λ j op c h. omega (arith, v.below j op c (others j op c h));
    apart = λ j k op os c h l. v.apart j k op os c (others j op c h) (others k os c l);
  }
