-- ===== src/Session/Registry.antt =====
-- core/dbcore/session.go: what holds of the registry at all times, and behind each operation.
use db_crawler.Prelude.{
  ℕ, ◌+◌, ◌≤◌, ◌<◌, ◌≡◌, refl, ap, sym, ◌∙◌, List, [], ◌∷◌, ◌++◌, none, inl, inr, arith, Bool-cases,
  All,
}
use db_crawler.Session.Handles.{Entries, dbs, NotIn, Spread, Distinct}
use db_crawler.Session.{Session, Manager, find, id_of}
use db_crawler.Text.Decimal.{itoa_injective}
use db_crawler.Text.Words.{text_eq_iff}
use db_crawler.Text.{Text, codes, text_eq}

-- The entry's key is its session's id, which carries a number that has been given out.
abbrev pub Numbered : ℕ → Text × Session → Type 0
Numbered seq (k, s) = (k ≡ s.id) × ((n : ℕ) × (k ≡ id_of (codes "conn") n) × (n ≤ seq))

-- The registry: distinct ids that the counter has given out, and one open handle per session.
pub record Registry (m : Manager) : Type 0 where
  pub numbered : All (Numbered m.seq) m.sessions
  pub distinct : Distinct m.sessions
  pub owned : m.handles ≡ dbs m.sessions
  pub below : All (λ (h : ℕ). h < m.next_handle) (dbs m.sessions)
  pub spread : Spread (dbs m.sessions)

-- The handles are below the next one.
abbrev pub DbsBelow : ℕ → Entries → Type 0
DbsBelow b m = All (λ (h : ℕ). h < b) (dbs m)

id_of_injective : (p : Text) (a b : ℕ) → id_of p a ≡ id_of p b → a ≡ b
unfolding id_of
id_of_injective [] a b h = itoa_injective a b (cc h)
id_of_injective (c ∷ p) a b h = id_of_injective p a b (cc h)

-- The next number's id is not registered.
pub fresh :
    (seq : ℕ) (m : Entries) → All (Numbered seq) m → find (id_of (codes "conn") (seq + 1)) m ≡ none
unfolding find
fresh seq [] a = refl
fresh seq ((k, s) ∷ m) a = elim (Bool-cases (text_eq k (id_of (codes "conn") (seq + 1)))) [
  | inl e ↦
      (let same : a.0.1.0 ≡ seq + 1 =
          id_of_injective (codes "conn") a.0.1.0 (seq + 1)
            (sym a.0.1.1 ∙ (text_eq_iff k (id_of (codes "conn") (seq + 1))).0 e) in
        absurd (omega (arith, same, a.0.1.2)))
  | inr e ↦ rw e (fresh seq m a.1)
]

pub dbs-append : (m n : Entries) → dbs (m ++ n) ≡ dbs m ++ dbs n
dbs-append [] n = refl
dbs-append ((k, s) ∷ m) n = ap (◌∷◌ s.db) (dbs-append m n)

-- What is below a bound differs from the bound.
NotIn-append : (h : ℕ) (hs : List ℕ) (b : ℕ) → NotIn h hs → h < b → NotIn h (hs ++ b ∷ [])
NotIn-append h [] b n l = (ground arith, tt)
NotIn-append h (x ∷ hs) b n l = (n.0, NotIn-append h hs b n.1 l)

pub Spread-append :
    (hs : List ℕ) (b : ℕ) → Spread hs → All (λ (h : ℕ). h < b) hs → Spread (hs ++ b ∷ [])
Spread-append [] b s a = (tt, tt)
Spread-append (h ∷ hs) b s a = (NotIn-append h hs b s.0 a.0, Spread-append hs b s.1 a.1)
