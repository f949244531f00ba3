-- ===== src/Session/Closing.antt =====
-- core/dbcore/session.go: Close and CloseAll keep the registry, and release what they close.
use db_crawler.Prelude.{
  ℕ, ◌≡◌, refl, ap, subst, sym, ◌∙◌, [], ◌∷◌, Option, none, some, inl, inr, Option-cases, if_rule,
  All, ==_refl,
}
use db_crawler.Session.Handles.{
  Entries, dbs, NotIn, Spread, Distinct, close_handle-delete, close_handle_absent,
}
use db_crawler.Session.Maps.{find-delete}
use db_crawler.Session.{
  Session, Manager, find, delete, close_handle, close, close_all, shut, shut_all,
}
use db_crawler.Text.{Text, text_eq}
use db_crawler.Session.Registry.{Numbered, Registry, DbsBelow}

pub All-delete {κ} :
    (P : Text × Session → Type κ) (id : Text) (m : Entries) → All P m → All P (delete id m)
unfolding delete
All-delete P id [] a = tt
All-delete P id ((k, s) ∷ m) a =
    if_rule (All P) (text_eq k id) (All-delete P id m a.1) (a.0, All-delete P id m a.1)

below-delete : (b : ℕ) (id : Text) (m : Entries) → DbsBelow b m → DbsBelow b (delete id m)
unfolding delete
below-delete b id [] a = tt
below-delete b id ((k, s) ∷ m) a =
    if_rule (DbsBelow b) (text_eq k id) (below-delete b id m a.1) (a.0, below-delete b id m a.1)

NotIn-delete : (h : ℕ) (id : Text) (m : Entries) → NotIn h (dbs m) → NotIn h (dbs (delete id m))
unfolding delete
NotIn-delete h id [] n = tt
NotIn-delete h id ((k, s) ∷ m) n =
    if_rule (λ (e : Entries). NotIn h (dbs e)) (text_eq k id) (NotIn-delete h id m n.1)
      (n.0, NotIn-delete h id m n.1)

Spread-delete : (id : Text) (m : Entries) → Spread (dbs m) → Spread (dbs (delete id m))
unfolding delete
Spread-delete id [] p = tt
Spread-delete id ((k, s) ∷ m) p =
    if_rule (λ (e : Entries). Spread (dbs e)) (text_eq k id) (Spread-delete id m p.1)
      (NotIn-delete s.db id m p.0, Spread-delete id m p.1)

-- A key that is absent stays absent.
absent-delete : (j id : Text) (m : Entries) → find j m ≡ none → find j (delete id m) ≡ none
absent-delete j id m h =
    find-delete id j m ∙ if_rule (λ (o : Option Session). o ≡ none) (text_eq id j) refl h

Distinct-delete : (id : Text) (m : Entries) → Distinct m → Distinct (delete id m)
unfolding delete
Distinct-delete id [] d = tt
Distinct-delete id ((k, s) ∷ m) d =
    if_rule Distinct (text_eq k id) (Distinct-delete id m d.1)
      (absent-delete k id m d.0, Distinct-delete id m d.1)

-- Close, of any id, keeps the registry well formed: in particular it closes the handle of the
-- session that it removes and no other.
pub close-Registry : (m : Manager) (id : Text) → Registry m → Registry (close m id)
unfolding close shut
close-Registry m id r = elim (Option-cases (find id m.sessions)) [
  | inl e ↦ subst (λ (o : Option Session). Registry (after o)) (sym e) r
  | inr (s, e) ↦
      subst (λ (o : Option Session). Registry (after o)) (sym e)
        record {
          numbered = All-delete (Numbered m.seq) id m.sessions r.numbered;
          distinct = Distinct-delete id m.sessions r.distinct;
          owned =
              ap (close_handle s.db) r.owned
              ∙ close_handle-delete id m.sessions r.distinct r.spread e;
          below = below-delete m.next_handle id m.sessions r.below;
          spread = Spread-delete id m.sessions r.spread;
        }
]
  where
    after : Option Session → Manager
    after o = elim o [ none ↦ m | some s ↦ shut s (record m { sessions = delete id m.sessions }) ]

dbs-shut_all :
    (ms : Entries) (m : Manager)
    → Spread (dbs ms)
    → m.handles ≡ dbs ms
    → (shut_all ms m).handles ≡ []
unfolding shut_all shut close_handle
dbs-shut_all [] m p h = h
dbs-shut_all ((k, s) ∷ ms) m p h =
    dbs-shut_all ms (shut s m) p.1
      (ap (close_handle s.db) h ∙ rw (==_refl s.db) (close_handle_absent s.db (dbs ms) p.0))

sessions-shut_all : (ms : Entries) (m : Manager) → (shut_all ms m).sessions ≡ m.sessions
unfolding shut_all shut
sessions-shut_all [] m = refl
sessions-shut_all ((k, s) ∷ ms) m = sessions-shut_all ms (shut s m)

-- Behind CloseAll a well-formed registry has no session and no open handle left.
pub close_all_lem :
    (m : Manager) → Registry m → ((close_all m).sessions ≡ []) × ((close_all m).handles ≡ [])
unfolding close_all
close_all_lem m r = (
  sessions-shut_all m.sessions (record m { sessions = [] }),
  dbs-shut_all m.sessions (record m { sessions = [] }) r.spread r.owned,
)

pub close_all-Registry : (m : Manager) → Registry m → Registry (close_all m)
close_all-Registry m r = emptied (close_all m) (close_all_lem m r).0 (close_all_lem m r).1
  where
    emptied : (n : Manager) → n.sessions ≡ [] → n.handles ≡ [] → Registry n
    emptied n e f = record {
      numbered = subst (All (Numbered n.seq)) (sym e) tt;
      distinct = subst Distinct (sym e) tt;
      owned = f ∙ ap dbs (sym e);
      below = subst (DbsBelow n.next_handle) (sym e) tt;
      spread = subst (λ (es : Entries). Spread (dbs es)) (sym e) tt;
    }
