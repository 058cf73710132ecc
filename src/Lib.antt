-- ===== src/Lib.antt =====
-- monitoring24, a server monitor in Go: its alert engine, its store, its event broker, its URL checker
-- and its HTTP handlers.
--
-- The program. cmd/server/main.go wires the parts: a collector samples the system every two seconds,
-- hands the percentages and the state of the URL checks to the alert engine (internal/alerts), and
-- broadcasts what it found, and the alerts that were fired, to browsers through the broker
-- (internal/sse). The URL checker (internal/urlcheck) runs a goroutine per enabled check. The handlers
-- (internal/http) read and change the checks, the alerts and the thresholds. All of them keep their
-- records in SQLite through internal/storage.
--
-- The files.
--   Base: lists, association maps, bytes, signed integers, sorting, Go's decimal numerals,
--     bufio.Scanner, and float64. A Float64 is nan, an infinity, or a number of units, a unit being
--     the least positive float64; Rounding and Nearest are rounding to nearest, half to even, with 53
--     bits, Floats the arithmetic on top of it.
--   Storage: internal/storage. Schema has the structs and the tables; Session the world (tables, counts
--     of statements and of clock readings) and the environment, which says which statement fails and
--     what the clock reads; Alerts, Thresholds, Checks, Events and Purge the functions of sqlite.go
--     under their own names; Open the migration of a file that may have been there before. A table is a
--     list, newest row first, with the next AUTOINCREMENT value. UNIQUE, the foreign key and ON DELETE
--     CASCADE of the schema are conditions of the statements. Integrity is about the foreign key, Rows
--     and Unique about the keys, Groups and Sources about the failed logins by address.
--   Alerts: internal/alerts/alerts.go. Engine has the maps `thresholds` and `activeAlerts`, and
--     `Evaluate` as the list of checks and a loop over it; Sync the invariant between the map and the
--     table; Rounds one round of the loop; Kinds the kinds of the checks; Evaluate, Levels, Fired,
--     Restart, Faults and History what is proved of them. A message stands for the format and its
--     operands.
--   Sse: internal/sse/broker.go. Broker has the state and what each case of `select` and each part of
--     `ServeHTTP` does; Steps the step relation, in which any case that is ready may be taken. A client
--     is the number of its connection, and its id is what `newID` drew for it: that no two are the same
--     is a hypothesis where it is needed; Ids has `newID` itself. A panic is a field of the state. Safe
--     has the invariant, and Joining and Closing that the steps keep it. Frames is the text of the
--     events on the wire, with a reader of it after the standard.
--   UrlCheck: internal/urlcheck/checker.go. Checker has the maps, the goroutines and the operations;
--     Probe `doCheck`, `doAndStore` and the int64 arithmetic of intervals; Loop the positions and moves
--     of one goroutine in `runCheck`, and Ending their end; Running the invariant of the maps; Numbers
--     their ids against the table; Starting, Stopping, Changes and Changed the operations. What the HTTP
--     client answers is an argument.
--   Http: internal/http/handlers.go. Messages has the requests and answers, Handlers the handlers;
--     History sequences of requests; Lifetime what becomes of a check that a request created. A body
--     that `json.Decode` refuses is none.
--   Http.Latest: the cache of snapshots in internal/http/handlers.go, with the ticks of `runCollector`
--     (cmd/server/main.go) that fill it. The snapshots themselves are parameters.
--   Config: internal/config/config.go, from the values of the flags on; Names the flag `--services`.
--     Http.Routes: the middleware of internal/http/routes.go; Http.Table its table of patterns, as the
--     mux of net/http reads it; Http.Access and Http.Entry the flag `--basic-auth` with both.
--   Tunnel: internal/tunnel/tunnel.go. Detector has `Collect`, with the process list and the output of
--     `cloudflared --version` as arguments; Names what it looks for in them; Transitions the log of
--     events that it writes.
--   Security: internal/security/authlog.go. AuthLog has the incremental parser, with the matching
--     of a line and the functions of the package time as arguments; Patterns the regular expressions
--     that match a line; Recorded what lines leave in the table; Ingest reading in parts; Search
--     `containsCI` and the count of updates, Updates what it counts; Occurrences what it finds;
--     Snapshot internal/security/security.go.
--   Metrics: internal/metrics. Network has `CollectNetwork` and `itoa`, Counts what they compute. System
--     is `Collect` of system.go, with what gopsutil answers as the records of Readings; Sampling and
--     Interfaces what a sample tells. App is app.go.
--   Services: internal/services/services.go. Monitor has the queries, with what systemctl prints as an
--     argument; Parsing what a status is.
--   Server: cmd/server/main.go. Collector has the alert part of the fast tick, from the sample and the
--     checker's summaries through the engine to the broker; Ticks what it brings about. Loops has whole
--     ticks of `runCollector`, `runPurge` and `relayURLResults`; Program the start and runs of turns;
--     Frames, Writes, Requests and Keeping what the turns leave alone and keep, Soundness what holds
--     after any run; Broadcasts the events of a fast tick. Address is `displayAddr`.
--
-- How the parts meet. Every statement is a function of the environment and the world that returns a
-- Result and a world; the engine and the checker take that world along, as the source takes `db`.
-- `Evaluate` holds its lock throughout and is one step. The checker locks its maps piece by piece, so
-- its histories are of requests that do not overlap, with probes between them. The
-- broker's goroutines interleave, and so the broker is a relation.
--
-- A run of the program is a list of turns, each a tick, a request, a probe or a restart as a whole.
--
-- Bounds. There is no fuel: every loop of the source that is modelled runs over a list or a number.
-- Database ids and times are natural numbers; the intervals wrap at 2^63 as int64 does, and the
-- differences of counters at 2^64 as uint64 does. Results of float64 arithmetic are rounded to 53
-- bits and overflow to an infinity; what Go leaves to the machine, the conversion to uint64 of a
-- float64 that is out of its range, is an argument, `wild`. A line of 64 KB or more ends the scan of
-- a bufio.Scanner.
--
-- Not modelled: what gopsutil, systemctl, bcrypt, net/http and the package time answer, which are
-- arguments; the redirects of the mux and its file server; the driver of the database, with the file
-- modes and pragmas; signals, the listener and its shutdown, and the log; the web page.
pub mod Base
pub mod Storage
pub mod Alerts
pub mod Sse
pub mod UrlCheck
pub mod Config
pub mod Http
pub mod Services
pub mod Server
pub mod Security
pub mod Tunnel
pub mod Metrics
