-- ===== src/Tests/Sessions.antt =====
-- The registry's theorems at a registry with one session.
use db_crawler.Prelude.{refl, [], ◌∷◌, arith}
use db_crawler.Session.Lifecycle.{Opens, open_session-Opens}
use db_crawler.Session.Registry.{Registry}
use db_crawler.Session.{Manager, Dial, open_session, id_of, find}
use db_crawler.Tests.Base.{plain, config, session}
use db_crawler.Text.{codes}

-- The session "conn-1" is open, and a handle has been closed before.
abbrev pub one_open : Manager
one_open = record {
  sessions = (codes "conn-1", session) ∷ [];
  seq = 1;
  handles = 0 ∷ [];
  next_handle = 2;
  cancelled = [];
}

pub one_open-Registry : Registry one_open
unfolding id_of find
one_open-Registry = record {
  numbered = ((refl, (1, refl, omega arith)), tt);
  distinct = (refl, tt);
  owned = refl;
  below = (omega arith, tt);
  spread = (tt, tt);
}

open_session-Opens_example : Opens one_open (open_session one_open config 7 Dial.reached)
open_session-Opens_example =
    open_session-Opens one_open config 7 Dial.reached (omega arith) one_open-Registry
