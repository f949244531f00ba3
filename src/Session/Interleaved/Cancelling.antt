-- ===== src/Session/Interleaved/Cancelling.antt =====
-- core/dbcore/session.go: Cancel and Close against the calls that run.
use db_crawler.Session.Interleaved.Inv.{running_parts, Called, cancelled_tracked, Inv, start-Inv}
use db_crawler.Session.Interleaved.Steps.{idle_like, track-Inv, untrack-Inv, cancel-Inv, close-Inv}
use db_crawler.Prelude.{◌↔◌, ℕ, ◌+◌, ◌≡◌, refl, ap, sym, ◌∙◌, true, ◌∷◌, some, inl, inr, arith}
use db_crawler.Session.Interleaved.{
  idle, holding, running, unnamed, leaving, System, closed, Step, Reach,
}
use db_crawler.Session.{Session, Manager, find, cancel, shut}
use db_crawler.Text.{Text}

Step-Inv : {x y : System} → Step x y → Inv x → Inv y
Step-Inv {x} (Step.get i r h) v =
    idle_like x v i holding (λ op c e. absurd (cc e)) x.manager x.issued (omega arith) (λ c e. e)
Step-Inv {x} (Step.track_it i op h n u) v = track-Inv x v i op u
Step-Inv {x} (Step.go_unnamed i h) v =
    idle_like x v i (unnamed x.issued) (λ op c e. absurd (cc e)) x.manager (x.issued + 1)
      (omega arith) (λ c e. e)
Step-Inv {x} (Step.untrack_it i op c h) v = untrack-Inv x v i op c h
Step-Inv {x} (Step.leave_unnamed i c h) v =
    idle_like x v i (leaving c) (λ op d e. absurd (cc e)) x.manager x.issued (omega arith)
      (λ d e. e)
Step-Inv {x} (Step.release i c h) v =
    idle_like x v i idle (λ op d e. absurd (cc e))
      (record x.manager { cancelled = c ∷ x.manager.cancelled }) x.issued (omega arith)
      (λ d e. inr e)
Step-Inv {x} (Step.cancel_it op r) v = cancel-Inv x v op
Step-Inv {x} (Step.close_it r) v = close-Inv x v

Reach-Inv : {m : Manager} {s : Session} {x : System} → Reach m s x → Inv x
Reach-Inv {m} {s} (Reach.start e) = start-Inv m s
Reach-Inv (Reach.later r st) = Step-Inv st (Reach-Inv r)

-- In every state that calls on a session can reach, whatever their interleaving, while the
-- session is registered and where each call that starts to run has an operation id that no
-- running call has: Cancel of the id of a running call reports success and calls the cancel
-- function of its context, contexts of running calls are equal only if the calls are, and
-- Close calls the cancel function too.
pub cancel_reaches :
    {m : Manager} {s : Session} {x : System}
    → Reach m s x
    → x.registered ≡ true
    → (i j : ℕ) (op os : Text) (c d : ℕ) → x.calls i ≡ running op c
    → x.calls j ≡ running os d
    → (cancel x.manager x.session op
        ≡ (record x.manager { cancelled = c ∷ x.manager.cancelled }, true))
      × ((c ≡ d) ↔ (i ≡ j))
      × Called c (closed x).manager.cancelled
unfolding cancel shut
cancel_reaches {x} r reg i j op os c d h k =
    go (elim (v.tracked i op c h) [ inl e ↦ e | inr e ↦ absurd (cc (sym reg ∙ e.0)) ])
  where
    v : Inv x
    v = Reach-Inv r

    go :
        find op x.session.running ≡ some c
        → (cancel x.manager x.session op
            ≡ (record x.manager { cancelled = c ∷ x.manager.cancelled }, true))
          × ((c ≡ d) ↔ (i ≡ j))
          × Called c (closed x).manager.cancelled
    go e = (
      rw (e, cancel) refl,
      (
        (λ same. v.apart i j op os c h (k ∙ ap (running os) (sym same))),
        (λ same. (running_parts (sym h ∙ ap x.calls same ∙ k)).1),
      ),
      cancelled_tracked op c x.session.running x.manager.cancelled e,
    )
