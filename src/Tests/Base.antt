-- ===== src/Tests/Base.antt =====
-- What the tests run on: tables with no letter and no case above ASCII, formats with one time
-- and one float, and a server that counts the writes that reach it.
use db_crawler.Classify.{is_read_only}
use db_crawler.Dsn.{Config}
use db_crawler.Engine.{postgresql}
use db_crawler.Prelude.Int.{pos}
use db_crawler.Prelude.{ℕ, ◌+◌, true, false, [], ◌∷◌, none, some, inl, if◌then◌else◌}
use db_crawler.Query.Rows.{Failure, Fetched, row}
use db_crawler.Query.{Database, QueryOptions}
use db_crawler.Session.{Session}
use db_crawler.Text.{Unicode, codes}
use db_crawler.Values.{Formats, int}

instance abbrev pub plain : Unicode
plain = record {
  wide_letter = λ c. false;
  wide_digit = λ c. false;
  wide_upper = λ c. c;
  wide_lower = λ c. c;
}

abbrev pub formats : Formats
formats = record {
  Time = Unit;
  Float = Unit;
  format_time = λ t layout. layout;
  is_nan = λ f. false;
  is_inf = λ f. false;
  is_neg_inf = λ f. false;
  in_plain_range = λ f. true;
  format_float = λ f n. codes "0";
}

-- Two rows of one number.
abbrev pub two_rows : Fetched formats
two_rows = record {
  column_error = none;
  names = codes "n" ∷ [];
  types = none ∷ [];
  fetches = row (int (pos 1) ∷ []) ∷ row (int (pos 2) ∷ []) ∷ [];
  end_error = none;
}

abbrev pub no_failure : Failure
no_failure = record { message = []; is_deadline = false; is_canceled = false }

-- The state is the number of statements that are not on the allowlist.
abbrev pub server : Database formats Unit
server = record {
  St = ℕ;
  query = λ n sql args. (if is_read_only sql then n else n + 1, inl two_rows);
  exec = λ n sql args. (if is_read_only sql then n else n + 1, inl (none, some (pos 1)));
  context = λ n. no_failure;
}

abbrev pub options : QueryOptions
options = record {
  max_rows = pos 1;
  timeout_seconds = pos 0;
  op_id = codes "op-1";
  stop_on_error = true;
}

abbrev pub config : Config
config = record {
  engine = postgresql;
  host = codes "db";
  port = pos 0;
  database = [];
  user = codes "me";
  password = [];
  file = [];
  auth = [];
  tls = [];
  connect_timeout_seconds = pos 0;
  read_only = true;
  params = [];
  raw_dsn = [];
}

abbrev pub session : Session
session = record {
  id = codes "conn-1";
  engine = postgresql;
  config = config;
  db = 0;
  opened_at = 5;
  running = (codes "op-0", 9) ∷ [];
}
