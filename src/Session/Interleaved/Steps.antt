-- ===== src/Session/Interleaved/Steps.antt =====
-- core/dbcore/session.go: each kind of step keeps the invariant.
use db_crawler.Session.Interleaved.Inv.{
  Called, Called-append, cancelled_tracked, running_parts, Called-cancel, moved, Inv, others,
  quiet-Inv,
}
use db_crawler.Prelude.{
  ℕ, ◌+◌, ◌<◌, ◌≤◌, ◌≡◌, refl, ap, sym, ◌∙◌, false, some, ◌≢◌, ◌⊎◌, inl, inr, Bool-cases, arith,
}
use db_crawler.Session.Interleaved.{
  Phase, running, leaving, System, update, Unused, closed, cancelling,
}
use db_crawler.Session.Maps.{find-put, find-delete, text_eq_refl}
use db_crawler.Session.{Manager, find, put, delete, track, untrack, cancel_functions, shut}
use db_crawler.Text.Words.{text_eq_iff}
use db_crawler.Text.{Text, text_eq}

module _ (x : System) (v : Inv x) where
  pub idle_like :
      (i : ℕ) (p : Phase)
      → ((op : Text) (c : ℕ) → p ≢ running op c)
      → (m : Manager) (n : ℕ) → x.issued ≤ n
      → ((c : ℕ) → Called c x.manager.cancelled → Called c m.cancelled)
      → Inv (record x { manager = m; calls = update i p x.calls; issued = n })
  idle_like i p quiet m n le more = quiet-Inv x v i p quiet m x.session n le (λ j op c h.
      elim (v.tracked j op c (others x v i p quiet j op c h)) [
        | inl e ↦ inl e
        | inr e ↦ inr (e.0, more c e.1)
      ])

  pub track-Inv :
      (i : ℕ) (op : Text)
      → Unused op x.calls
      → Inv (record x {
        session = track x.session op x.issued;
        calls = update i (running op x.issued) x.calls;
        issued = x.issued + 1;
      })
  unfolding track
  track-Inv i op unused = record {
    tracked = λ j os c h.
        tracked_behind j os c (moved i (running op x.issued) x.calls j (running os c) h);
    alone = λ j k os c d h l.
        alone_behind j k os c d (moved i (running op x.issued) x.calls j (running os c) h)
          (moved i (running op x.issued) x.calls k (running os d) l);
    below =
        λ j os c h. below_behind j os c (moved i (running op x.issued) x.calls j (running os c) h);
    apart = λ j k os ps c h l.
        apart_behind j k os ps c (moved i (running op x.issued) x.calls j (running os c) h)
          (moved i (running op x.issued) x.calls k (running ps c) l);
  }
    where
      Case : ℕ → Text → ℕ → Type 0
      Case j os c =
          ((i ≡ j) × (running op x.issued ≡ running os c)) ⊎ ((i ≢ j) × (x.calls j ≡ running os c))

      tracked_behind :
          (j : ℕ) (os : Text) (c : ℕ)
          → Case j os c
          → (find os (put op x.issued x.session.running) ≡ some c)
            ⊎ ((x.registered ≡ false) × Called c x.manager.cancelled)
      tracked_behind j os c (inl e) = inl (
          ap (λ (t : Text). find t (put op x.issued x.session.running)) (sym (running_parts e.1).0)
          ∙ find-put op op x.issued x.session.running
          ∙ rw (text_eq_refl op) (ap some (running_parts e.1).1))
      tracked_behind j os c (inr e) = elim (Bool-cases (text_eq op os)) [
        | inl same ↦
            absurd
              (unused j c (e.1 ∙ ap (λ (t : Text). running t c) (sym ((text_eq_iff op os).0 same))))
        | inr other ↦ elim (v.tracked j os c e.1) [
          | inl a ↦ inl (find-put op os x.issued x.session.running ∙ rw other a)
          | inr a ↦ inr a
        ]
      ]

      alone_behind : (j k : ℕ) (os : Text) (c d : ℕ) → Case j os c → Case k os d → j ≡ k
      alone_behind j k os c d (inl e) (inl f) = cc
      alone_behind j k os c d (inl e) (inr f) = absurd (unused k d (cc (e.1, f.1)))
      alone_behind j k os c d (inr e) (inl f) = absurd (unused j c (cc (e.1, f.1)))
      alone_behind j k os c d (inr e) (inr f) = v.alone j k os c d e.1 f.1

      below_behind : (j : ℕ) (os : Text) (c : ℕ) → Case j os c → c < x.issued + 1
      below_behind j os c (inl e) = ground arith
      below_behind j os c (inr e) = omega (arith, v.below j os c e.1)

      apart_behind : (j k : ℕ) (os ps : Text) (c : ℕ) → Case j os c → Case k ps c → j ≡ k
      apart_behind j k os ps c (inl e) (inl f) = cc
      apart_behind j k os ps c (inl e) (inr f) =
          absurd (omega (arith, (running_parts e.1).1, v.below k ps c f.1))
      apart_behind j k os ps c (inr e) (inl f) =
          absurd (omega (arith, (running_parts f.1).1, v.below j os c e.1))
      apart_behind j k os ps c (inr e) (inr f) = v.apart j k os ps c e.1 f.1

  pub untrack-Inv :
      (i : ℕ) (op : Text) (c : ℕ)
      → x.calls i ≡ running op c
      → Inv (record x { session = untrack x.session op; calls = update i (leaving c) x.calls })
  unfolding untrack
  untrack-Inv i op c now =
      quiet-Inv x v i (leaving c) (λ os d h. absurd (cc h)) x.manager (untrack x.session op)
        x.issued (omega arith)
        (λ j os d h. tracked_behind j os d (moved i (leaving c) x.calls j (running os d) h))
    where
      tracked_behind :
          (j : ℕ) (os : Text) (d : ℕ)
          → ((i ≡ j) × (leaving c ≡ running os d)) ⊎ ((i ≢ j) × (x.calls j ≡ running os d))
          → (find os (delete op x.session.running) ≡ some d)
            ⊎ ((x.registered ≡ false) × Called d x.manager.cancelled)
      tracked_behind j os d (inl e) = absurd (cc (e.1))
      tracked_behind j os d (inr e) = elim (Bool-cases (text_eq op os)) [
        | inl same ↦ absurd (
            e.0 (
              v.alone i j os c d (now ∙ ap (λ (t : Text). running t c) ((text_eq_iff op os).0 same))
                e.1))
        | inr other ↦ elim (v.tracked j os d e.1) [
          | inl a ↦ inl (find-delete op os x.session.running ∙ rw other a)
          | inr a ↦ inr a
        ]
      ]

  pub cancel-Inv : (op : Text) → Inv (cancelling op x)
  cancel-Inv op = record {
    tracked = λ i os c h. elim (v.tracked i os c h) [
      | inl e ↦ inl e
      | inr e ↦ inr (e.0, Called-cancel c x.manager x.session op e.1)
    ];
    alone = v.alone;
    below = v.below;
    apart = v.apart;
  }

  pub close-Inv : Inv (closed x)
  unfolding shut
  close-Inv = record {
    tracked = λ i os c h. elim (v.tracked i os c h) [
      | inl e ↦ inr (refl, cancelled_tracked os c x.session.running x.manager.cancelled e)
      | inr e ↦
          inr (refl, Called-append c (cancel_functions x.session.running) x.manager.cancelled e.1)
    ];
    alone = v.alone;
    below = v.below;
    apart = v.apart;
  }
