-- ===== src/Session.antt =====
-- core/dbcore/session.go: the registry of open sessions and the work that runs on them.
-- What the source reaches through pointers and closures is kept in the state: the database
-- handles that are not closed yet and the operations whose cancel function has been called.
-- A Go map is an association list with distinct keys; the mutexes make each operation one step.
pub mod Maps
pub mod Handles
pub mod Registry
pub mod Closing
pub mod Updating
pub mod Counting
pub mod Opening
pub mod Lifecycle
pub mod Hints
pub mod Entries
pub mod Refined
pub mod Interleaved
use db_crawler.Classify.Leading.{first_keyword}
use db_crawler.Classify.{is_read_only}
use db_crawler.Dsn.{Config, Problem, host_port}
use db_crawler.Dsn.Build.{dsn}
use db_crawler.Engine.{Engine, is_sqlite}
use db_crawler.Prelude.{
  ℕ, ◌+◌, ◌%◌, ◌^◌, Bool, true, false, List, [], ◌∷◌, ◌++◌, Option, none, some, ◌==◌, ◌⊎◌, inl, inr,
  if◌then◌else◌, length, map,
}
use db_crawler.Text.{Text, Unicode, codes, text_eq, itoa}

-- `m[k]`, `m[k] = v` and `delete(m, k)`
module _ {ℓ} {V : Type ℓ} where
  unfoldable pub find : Text → List (Text × V) → Option V
  unfolding text_eq
  find k [] = none
  find k ((j, v) ∷ m) = if text_eq j k then some v else find k m

  unfoldable pub put : Text → V → List (Text × V) → List (Text × V)
  unfolding text_eq
  put k v [] = (k, v) ∷ []
  put k v ((j, w) ∷ m) = if text_eq j k then (k, v) ∷ m else (j, w) ∷ put k v m

  unfoldable pub delete : Text → List (Text × V) → List (Text × V)
  unfolding text_eq
  delete k [] = []
  delete k ((j, w) ∷ m) = let rest = delete k m in if text_eq j k then rest else (j, w) ∷ rest

pub record Session : Type 0 where
  pub id : Text
  pub engine : Engine
  pub config : Config
  -- the database handle
  pub db : ℕ
  pub opened_at : ℕ
  -- the cancel function of each operation, by the operation's id
  pub running : List (Text × ℕ)

pub record Manager : Type 0 where
  pub sessions : List (Text × Session)
  pub seq : ℕ
  -- database handles that sql.Open has given and that are not closed
  pub handles : List ℕ
  pub next_handle : ℕ
  -- the cancel functions that have been called, newest first
  pub cancelled : List ℕ

unfoldable pub new_manager : Manager
new_manager = record { sessions = []; seq = 0; handles = []; next_handle = 0; cancelled = [] }

-- fmt.Sprintf("%s-%d", prefix, n)
unfoldable pub id_of : Text → ℕ → Text
unfolding itoa
id_of prefix n = prefix ++ (b'-' ∷ itoa n)

-- m.seq.Add(1), on 64 bits
unfoldable pub next_seq : Manager → ℕ
next_seq m = (m.seq + 1) % 2 ^ 64

-- db.Close()
unfoldable pub close_handle : ℕ → List ℕ → List ℕ
close_handle h [] = []
close_handle h (x ∷ hs) = let rest = close_handle h hs in if x == h then rest else x ∷ rest

-- What dialling the database comes to.
pub data Dial : Type 0 where
  refused pinged_in_vain reached : Dial

pub data OpenError : Type 0 where
  invalid : List Problem → OpenError
  not_opened not_reached : OpenError

dial_in : Manager → Config → ℕ → Dial → Manager × (Session ⊎ OpenError)
unfolding id_of next_seq close_handle put
dial_in m cfg now refused = (m, inr not_opened)
dial_in m cfg now pinged_in_vain = (
  record m {
    handles = close_handle m.next_handle (m.handles ++ m.next_handle ∷ []);
    next_handle = m.next_handle + 1;
  },
  inr not_reached,
)
dial_in m cfg now reached =
    let seq = next_seq m in
    let s : Session = record {
      id = id_of (codes "conn") seq;
      engine = cfg.engine;
      config = cfg;
      db = m.next_handle;
      opened_at = now;
      running = [];
    } in
    (
      record m {
        sessions = put s.id s m.sessions;
        seq = seq;
        handles = m.handles ++ m.next_handle ∷ [];
        next_handle = m.next_handle + 1;
      },
      inl s,
    )

unfoldable pub open_session :
    ⦃u : Unicode⦄ → Manager → Config → ℕ → Dial → Manager × (Session ⊎ OpenError)
unfolding dial_in
open_session m cfg now dial = elim (dsn cfg) [
  | inl problems ↦ (m, inr (invalid problems))
  | inr _ ↦ dial_in m cfg now dial
]

-- `none` is ErrNoSession.
unfoldable pub get : Manager → Text → Option Session
unfolding find
get m id = find id m.sessions

unfoldable pub cancel_functions : List (Text × ℕ) → List ℕ
cancel_functions [] = []
cancel_functions ((id, c) ∷ rest) = c ∷ cancel_functions rest

-- `s.cancelAll(); s.db.Close()`, on a session that is no longer registered
unfoldable pub shut : Session → Manager → Manager
unfolding close_handle cancel_functions
shut s m = record m {
  handles = close_handle s.db m.handles;
  cancelled = cancel_functions s.running ++ m.cancelled;
}

unfoldable pub close : Manager → Text → Manager
unfolding find delete shut
close m id = elim (find id m.sessions) [
  | none ↦ m
  | some s ↦ shut s (record m { sessions = delete id m.sessions })
]

unfoldable pub shut_all : List (Text × Session) → Manager → Manager
unfolding shut
shut_all [] m = m
shut_all ((id, s) ∷ rest) m = shut_all rest (shut s m)

unfoldable pub close_all : Manager → Manager
unfolding shut_all
close_all m = shut_all m.sessions (record m { sessions = [] })

unfoldable pub describe_target : Config → Text
unfolding host_port
describe_target cfg = if is_sqlite cfg.engine then cfg.file else host_port cfg

pub record SessionInfo : Type 0 where
  pub id : Text
  pub engine : Engine
  pub target : Text
  pub database : Text
  pub read_only : Bool
  pub opened_at : ℕ
  pub running : ℕ

unfoldable pub info : Session → SessionInfo
unfolding describe_target
info s = record {
  id = s.id;
  engine = s.engine;
  target = describe_target s.config;
  database = s.config.database;
  read_only = s.config.read_only;
  opened_at = s.opened_at;
  running = length s.running;
}

unfoldable pub list_sessions : Manager → List SessionInfo
unfolding info
list_sessions m = map (λ (e : Text × Session). info e.1) m.sessions

unfoldable pub track : Session → Text → ℕ → Session
unfolding put
track s id cancel = record s { running = put id cancel s.running }

unfoldable pub untrack : Session → Text → Session
unfolding delete
untrack s id = record s { running = delete id s.running }

-- `Cancel` on a registered session, reached by its id.
unfoldable pub cancel : Manager → Session → Text → Manager × Bool
unfolding find
cancel m s op = elim (find op s.running) [
  | none ↦ (m, false)
  | some c ↦ (record m { cancelled = c ∷ m.cancelled }, true)
]

-- `none` lets the statement through; else the keyword that the error names.
unfoldable pub guard : ⦃u : Unicode⦄ → Config → Text → Option Text
guard cfg sql =
    if cfg.read_only then (if is_read_only sql then none else some (first_keyword sql)) else none
