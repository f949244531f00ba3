-- ===== src/Lib.antt =====
-- The core of DB-Crawler, a database client: core/dbcore, which the app reaches through
-- core/ffi and the command line through core/cmd/dbcrawler. The modules follow its files.
--
-- Text: runes (code points) and what the source uses of strings, unicode, strconv, net and
--   net/url. Letters, digits and case above ASCII are a parameter, `Unicode`.
-- Engine (core/dbcore/engine.go): the four products; `other` is any other string.
-- Scan, Split, Classify (core/dbcore/sqltext.go): where the source moves an index over a slice
--   of runes, the model passes on the text from that index; the offsets of a statement are the
--   lengths of what is left, taken from the whole. The loops of `SplitStatements`,
--   `StripLeading` and `scanKeywords` run on fuel, which is the length of the text: each round
--   shortens the text. Split.Rounds has the loop of `SplitStatements` without fuel.
--   `split_step` is one round of the splitter, `flush` its closure.
-- Dsn (core/dbcore/dsn.go): a connection's fields, `Validate`, `ForEnumeration` and, in
--   Dsn.Build, the connection strings. The messages of `Validate` are constructors. Dsn.Redact
--   is `Redacted`; what net/url makes of a raw connection string is its parameter `Reparse`.
-- Values (core/dbcore/values.go): cells and kinds. A driver value is one constructor per case
--   of the source's type switch; times and floats are the parameter `Formats`.
-- Session (core/dbcore/session.go): `Manager` holds the registry, the counter of ids, the
--   database handles that are open and the cancel functions that have been called. A mutex
--   makes an operation one step. What `sql.Open` and the ping come to is the argument `Dial`;
--   the counter wraps at 2^64. The error of the driver's Close shows in the reply of Protocol
--   only. Session.Refined has the abstract registry that clients see; Session.Interleaved the
--   calls of `Execute` on one session in steps, one for each hold of a mutex, with Cancel and
--   Close between them; Session.Hints is `connectHint`.
-- Query (core/dbcore/query.go): `Database` stands for database/sql and the server, with a
--   state of its own; a result set is the list of what `Next` and `Scan` give. `Execute`
--   splits the buffer (Split), asks `guard` (Session, Classify) and runs the statements in
--   order. The context of a call is a number that its cancel function is known by.
-- Introspect (core/dbcore/introspect.go): the grouping of catalog rows, the rendered DDL and
--   the SQL that the explorer runs. The fold of `groupIndexRows` and `groupForeignKeyRows` is
--   written once, for any kind of row.
-- Complete (core/dbcore/complete.go): Complete.Cursor is what stands before the cursor, read
--   backwards where the source counts an index down; Complete.Tables the tables a statement
--   names, on fuel as in Split, and its loop without fuel in Complete.Tables.Rounds;
--   Complete.Rank the choice and the order of what is offered. The catalog that a session
--   caches is passed on, and `Answers` is what the server would answer.
-- Catalog (core/dbcore/introspect.go, introspect_sqlserver.go, introspect_postgres.go,
--   introspect_mysql.go, introspect_sqlite.go, routines.go): the catalog queries. `Driver` is
--   what database/sql answers to a statement with arguments, `Reading` how Scan converts a
--   value; Catalog.Sql holds the statements, the modules named for an engine read its rows,
--   Catalog.Browse and Catalog.Routines choose by engine, and Catalog.Explore fills the
--   `Explorer` of Protocol. The source sends these statements on the handle that `Execute`
--   uses, without asking the guard; `Driver` gives no state behind them, so that they are
--   taken to change none. That holds only as far as a SELECT of the system catalog, which each
--   of them is, changes nothing on the server.
-- Protocol (core/dbcore/protocol.go): the requests, and in Protocol.Dispatch `dispatch`, one
--   function per operation, on a `Core` of the registry (Session), the servers (Query) and the
--   cached catalogs (Complete). What the catalog operations come to is the parameter
--   `Explorer`, which Catalog.Explore fills; they are taken to change no state.
--   Protocol.Invariant carries a property of the registry through a request, by the interface
--   `Inductive`; Protocol.Runs is a process: requests from a new registry on, one after the
--   other; Protocol.Marked follows the read-only mark and Protocol.Secrets the password
--   through requests.
-- Command (core/cmd/dbcrawler/main.go): the flags, the connection they ask for, and the three
--   modes. What a line of stdin decodes to is a parameter; a call of os.Exit is an outcome.
-- Ffi (core/ffi/ffi.go): the library that the app loads, with its manager made on demand.
--
-- Not modelled: statements of one buffer as separate steps between which a cancel arrives
-- (Session.Interleaved has the whole run as one phase, and Query.Execute what the statements
-- come to), what a catalog statement may do to a server's state, JSON, the texts of errors and
-- the recovery from panics, the meaning of the catalog SQL, net/url, elapsed times, C strings
-- and their memory, and the Flutter app.
mod Prelude
pub mod Text
pub mod Engine
pub mod Scan
pub mod Classify
pub mod Split
pub mod Dsn
pub mod Values
pub mod Session
pub mod Query
pub mod Introspect
pub mod Complete
pub mod Protocol
pub mod Catalog
pub mod Command
pub mod Ffi
mod Tests
