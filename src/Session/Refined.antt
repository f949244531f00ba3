-- ===== src/Session/Refined.antt =====
-- core/dbcore/session.go: the registry as its clients see it. The abstract registry is a finite
-- map from ids to configurations, as a function, and the number of the last id; the order of the
-- entries, the handles, the tracked operations and the calls of cancel functions are forgotten.
use db_crawler.Dsn.Validation.{dsn_lem}
use db_crawler.Dsn.{Config, validate}
use db_crawler.Prelude.{
  ℕ, ◌+◌, ◌%◌, ◌^◌, ◌≡◌, refl, ap, ◌∙◌, Bool, true, false, ◌&&◌, List, [], ◌∷◌, Option, none, some,
  inl, inr, ◌⊎◌, if◌then◌else◌,
}
use db_crawler.Session.Entries.{close_sessions, shut_all_keeps}
use db_crawler.Session.Maps.{find-put, find-delete}
use db_crawler.Session.{
  Session, Manager, OpenError, Dial, find, id_of, next_seq, open_session, dial_in, close, close_all,
  get,
}
use db_crawler.Text.{Text, Unicode, codes, text_eq, is_nil}

pub record Book : Type 0 where
  pub holds : Text → Option Config
  pub last : ℕ

-- What a client does, and what it is told.
pub data Command : Type 0 where
  open_it : Config → ℕ → Dial → Command
  close_it look_up : Text → Command
  close_every : Command

pub data Told : Type 0 where
  opened : Text → Told
  not_opened closed missing : Told
  connected : Config → Told

abbrev pub config_of : Option Session → Option Config
config_of none = none
config_of (some s) = some s.config

abbrev pub view : Manager → Book
view m = record { holds = λ k. config_of (find k m.sessions); last = m.seq }

abbrev pub told_of : Option Config → Told
told_of none = missing
told_of (some cfg) = connected cfg

abbrev pub update : Text → Option Config → (Text → Option Config) → Text → Option Config
update k o f j = if text_eq k j then o else f j

abbrev pub dialled : Dial → Bool
dialled Dial.reached = true
dialled _ = false

-- The registry of the program.
abbrev opening : Manager × (Session ⊎ OpenError) → Manager × Told
opening (m, inl s) = (m, opened s.id)
opening (m, inr e) = (m, not_opened)

module _ ⦃u : Unicode⦄ where
  abbrev pub perform : Command → Manager → Manager × Told
  perform (open_it cfg now dial) m = opening (open_session m cfg now dial)
  perform (close_it id) m = (close m id, closed)
  perform (look_up id) m = (m, told_of (config_of (get m id)))
  perform close_every m = (close_all m, closed)

  -- The registry as it is meant.
  abbrev pub expected : Command → Book → Book × Told
  expected (open_it cfg now dial) b =
      let n = (b.last + 1) % 2 ^ 64 in
      let id = id_of (codes "conn") n in
      if is_nil (validate cfg) && dialled dial
      then (record { holds = update id (some cfg) b.holds; last = n }, opened id)
      else (b, not_opened)
  expected (close_it id) b = (record b { holds = update id none b.holds }, closed)
  expected (look_up id) b = (b, told_of (b.holds id))
  expected close_every b = (record b { holds = λ k. none }, closed)

  abbrev pub performed : List Command → Manager → List Told
  performed [] m = []
  performed (c ∷ cs) m = let r = perform c m in r.1 ∷ performed cs r.0

  abbrev pub meant : List Command → Book → List Told
  meant [] b = []
  meant (c ∷ cs) b = let r = expected c b in r.1 ∷ meant cs r.0

  abbrev Refines : Command → Manager → Type 0
  Refines c m =
      (view (perform c m).0 ≡ (expected c (view m)).0) × ((perform c m).1 ≡ (expected c (view m)).1)

config_of_if :
    (b : Bool) (x : Option Session) (y : Option Session)
    → config_of (if b then x else y) ≡ (if b then config_of x else config_of y)
config_of_if true x y = refl
config_of_if false x y = refl

Book-ext : (a b : Book) → ((k : Text) → a.holds k ≡ b.holds k) → a.last ≡ b.last → a ≡ b
Book-ext a b h e i = record { holds = λ k. h k i; last = e i }

view-dial_in :
    (m : Manager) (cfg : Config) (now : ℕ) (dial : Dial)
    → let n = (m.seq + 1) % 2 ^ 64 in
      let id = id_of (codes "conn") n in
      let r = opening (dial_in m cfg now dial) in
      (view r.0 ≡ (
        if dialled dial
        then record { holds = update id (some cfg) (view m).holds; last = n }
        else view m))
      × (r.1 ≡ (if dialled dial then opened id else not_opened))
unfolding dial_in next_seq
view-dial_in m cfg now Dial.refused = (refl, refl)
view-dial_in m cfg now Dial.pinged_in_vain = (refl, refl)
view-dial_in m cfg now Dial.reached =
    (Book-ext _ _ (λ k. ap config_of (find-put _ k _ m.sessions) ∙ config_of_if _ _ _) refl, refl)

module _ ⦃u : Unicode⦄ where
  open_it-Refines :
      (cfg : Config) (now : ℕ) (dial : Dial) (m : Manager) → Refines (open_it cfg now dial) m
  unfolding open_session
  open_it-Refines cfg now dial m = elim (dsn_lem cfg) [
    | inl good ↦
        rw (good.0, good.1.1, open_session)
          (told_if (dialled dial) (opening (dial_in m cfg now dial)) (view-dial_in m cfg now dial))
    | inr bad ↦ rw (bad.0, bad.1, open_session) (refl, refl)
  ]
    where
      n : ℕ
      n = (m.seq + 1) % 2 ^ 64

      told_if :
          (b : Bool) (r : Manager × Told)
          → (view r.0 ≡ (
              if b
              then record {
                holds = update (id_of (codes "conn") n) (some cfg) (view m).holds;
                last = n;
              }
              else view m))
            × (r.1 ≡ (if b then opened (id_of (codes "conn") n) else not_opened))
          → let e : Book × Told =
              if b
              then (
                record {
                  holds = update (id_of (codes "conn") n) (some cfg) (view m).holds;
                  last = n;
                },
                opened (id_of (codes "conn") n),
              )
              else (view m, not_opened) in
            (view r.0 ≡ e.0) × (r.1 ≡ e.1)
      told_if true r h = h
      told_if false r h = h

module _ ⦃u : Unicode⦄ where
  pub perform-Refines : (c : Command) (m : Manager) → Refines c m
  unfolding get close_all
  perform-Refines (open_it cfg now dial) m = open_it-Refines cfg now dial m
  perform-Refines (close_it id) m = (
    Book-ext _ _
        (λ k.
          ap (λ (es : List (Text × Session)). config_of (find k es)) (close_sessions m id).0
          ∙ ap config_of (find-delete id k m.sessions)
          ∙ config_of_if _ _ _)
        (close_sessions m id).1,
    refl,
  )
  perform-Refines (look_up id) m = (refl, refl)
  perform-Refines close_every m = (
    Book-ext _ _
        (λ k.
          ap (λ (es : List (Text × Session)). config_of (find k es))
            (shut_all_keeps m.sessions (record m { sessions = [] })).0)
        (shut_all_keeps m.sessions (record m { sessions = [] })).1,
    refl,
  )

  -- For every sequence of Open, Close, CloseAll and Get, from any registry on, the program
  -- gives the answers of an abstract registry, a finite map from ids to configurations and a
  -- counter: Open adds the id made of the next number if the configuration is valid and the
  -- database is reached, and changes nothing otherwise; Close removes the id, CloseAll removes
  -- all, and Get answers by the map.
  pub performed-meant : (cs : List Command) (m : Manager) → performed cs m ≡ meant cs (view m)
  performed-meant [] m = refl
  performed-meant (c ∷ cs) m =
      let step = perform-Refines c m in
      ap (◌∷◌ (perform c m).1) (performed-meant cs (perform c m).0)
      ∙ ap (λ (b : Book). (perform c m).1 ∷ meant cs b) step.0
      ∙ ap (λ (t : Told). t ∷ meant cs (expected c (view m)).0) step.1
