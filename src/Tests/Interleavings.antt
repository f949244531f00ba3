-- ===== src/Tests/Interleavings.antt =====
-- The registry against its abstract view, and Cancel against two calls at the same time.
use db_crawler.Prelude.{ℕ, ◌≡◌, ◌↔◌, refl, true, List, [], ◌∷◌, arith}
use db_crawler.Session.Interleaved.Cancelling.{cancel_reaches}
use db_crawler.Session.Interleaved.Inv.{Called}
use db_crawler.Session.Interleaved.{running, System, Step, Reach, closed}
use db_crawler.Session.Refined.{
  Command, open_it, close_it, look_up, close_every, performed, meant, view, performed-meant,
}
use db_crawler.Session.{Session, Dial, new_manager, cancel}
use db_crawler.Tests.Base.{plain, config}
use db_crawler.Text.{Text, codes}

-- A connection that is made, one that is not, and what Get says before and behind Close.
abbrev commands : List Command
commands =
    open_it config 1 Dial.reached
    ∷ open_it config 2 Dial.refused
    ∷ look_up (codes "conn-1")
    ∷ close_it (codes "conn-1")
    ∷ look_up (codes "conn-1")
    ∷ close_every
    ∷ []

performed-meant_example : performed commands new_manager ≡ meant commands (view new_manager)
performed-meant_example = performed-meant commands new_manager

abbrev quiet : Session
quiet = record {
  id = codes "conn-1";
  engine = config.engine;
  config = config;
  db = 0;
  opened_at = 5;
  running = [];
}

abbrev one : Text
one = codes "op-1"

abbrev two : Text
two = codes "op-2"

-- Two calls have got the session, and both run.
both_run :
    (x : System) × Reach new_manager quiet x
    × (x.registered ≡ true)
    × (x.calls 0 ≡ running one 0)
    × (x.calls 1 ≡ running two 1)
both_run = (
  _,
  Reach.later
      (Reach.later
        (Reach.later (Reach.later (Reach.start refl) (Step.get 0 refl refl)) (Step.get 1 refl refl))
        (Step.track_it 0 one refl refl (λ j c h. ground arith)))
      (Step.track_it 1 two refl refl (λ j c h. ground arith)),
  refl,
  refl,
  refl,
)

cancel_reaches_example :
    (cancel both_run.0.manager both_run.0.session one
      ≡ (record both_run.0.manager { cancelled = 0 ∷ both_run.0.manager.cancelled }, true))
    × ((◌≡◌ {A = ℕ} 0 1) ↔ (◌≡◌ {A = ℕ} 0 1))
    × Called 0 (closed both_run.0).manager.cancelled
cancel_reaches_example = cancel_reaches both_run.1 both_run.2 0 1 one two 0 1 both_run.3 both_run.4
