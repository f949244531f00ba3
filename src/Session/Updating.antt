-- ===== src/Session/Updating.antt =====
-- core/dbcore/session.go: what is done to a session in place keeps the registry, as long as its id
-- and its handle stay.
use db_crawler.Prelude.{
  ℕ, ◌<◌, ◌≡◌, ap, subst, sym, ◌∙◌, false, [], ◌∷◌, none, some, inl, inr, All, arith,
}
use db_crawler.Session.Handles.{Entries, dbs, Spread, Distinct, found_at}
use db_crawler.Session.Maps.{find-put}
use db_crawler.Session.Registry.{Numbered, Registry}
use db_crawler.Session.{Session, Manager, find, put}
use db_crawler.Text.Words.{text_eq_iff}
use db_crawler.Text.{Text, text_eq}

module _ (id : Text) (s w : Session) (same_id : w.id ≡ s.id) (same_db : w.db ≡ s.db) where
  dbs-put : (m : Entries) → find id m ≡ some s → dbs (put id w m) ≡ dbs m
  unfolding find put
  dbs-put [] f = absurd (cc f)
  dbs-put ((k, v) ∷ m) f = elim (found_at id k v m f) [
    | inl e ↦ rw (e.0) (ap (λ (h : ℕ). h ∷ dbs m) (same_db ∙ ap (λ (x : Session). x.db) (sym e.1)))
    | inr e ↦ rw (e.0) (ap (◌∷◌ v.db) (dbs-put m e.1))
  ]

  Numbered-put :
      (n : ℕ) (m : Entries)
      → find id m ≡ some s
      → All (Numbered n) m
      → All (Numbered n) (put id w m)
  unfolding find put
  Numbered-put n [] f a = absurd (cc f)
  Numbered-put n ((k, v) ∷ m) f a = elim (found_at id k v m f) [
    | inl e ↦
        let k_id : k ≡ id = (text_eq_iff k id).0 e.0 in
        rw (e.0) (
          (
            (
              sym k_id ∙ a.0.0 ∙ ap (λ (x : Session). x.id) e.1 ∙ sym same_id,
              (a.0.1.0, sym k_id ∙ a.0.1.1, a.0.1.2),
            ),
            a.1,
          ))
    | inr e ↦ rw (e.0) ((a.0, Numbered-put n m e.1 a.1))
  ]

  -- A key that is absent stays absent.
  put_absent :
      (k : Text) (m : Entries) → text_eq id k ≡ false → find k m ≡ none → find k (put id w m) ≡ none
  put_absent k m h f = find-put id k w m ∙ rw h f

  Distinct-put : (m : Entries) → find id m ≡ some s → Distinct m → Distinct (put id w m)
  unfolding find put
  Distinct-put [] f d = absurd (cc f)
  Distinct-put ((k, v) ∷ m) f d = elim (found_at id k v m f) [
    | inl e ↦ rw (e.0) ((subst (λ (j : Text). find j m ≡ none) ((text_eq_iff k id).0 e.0) d.0, d.1))
    | inr e ↦ rw (e.0) (
        (
          put_absent k m (ground (arith, text_eq_iff k id, text_eq_iff id k, e.0)) d.0,
          Distinct-put m e.1 d.1,
        ))
  ]

  pub put-Registry :
      (m : Manager)
      → find id m.sessions ≡ some s
      → Registry m
      → Registry (record m { sessions = put id w m.sessions })
  put-Registry m f r = record {
    numbered = Numbered-put m.seq m.sessions f r.numbered;
    distinct = Distinct-put m.sessions f r.distinct;
    owned = r.owned ∙ sym (dbs-put m.sessions f);
    below = subst (All (λ (h : ℕ). h < m.next_handle)) (sym (dbs-put m.sessions f)) r.below;
    spread = subst Spread (sym (dbs-put m.sessions f)) r.spread;
  }
