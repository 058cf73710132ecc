-- ===== src/Security/AuthLog.antt =====
-- internal/security/authlog.go: the incremental parser. The matching of a line and the functions of the
-- package time are arguments, and so is the file's content, none where it cannot be opened.
use monitoring.Base.{
  ltb, ◌==◌, if◌then◌else◌, length, drop, Text, bytes, tokens, stop_at, ℕ, suc, ◌+◌, Bool, true,
  false, Option, none, some, List, [], ◌∷◌,
}
use monitoring.Storage.{SshEvent, Error, failure, Result, ok, err, Env, World, insert_ssh_event}

-- The groups of a match: timestamp, user, address and port.
pub record Match : Type 0 where
  pub stamp : Text
  pub user : Text
  pub ip : Text
  pub port : Text

-- What `time.Parse` finds in a timestamp that has no year.
pub record Moment : Type 0 where
  pub month : ℕ
  pub day : ℕ
  pub hour : ℕ
  pub minute : ℕ
  pub second : ℕ

-- The regular expressions; and of the package time, `Parse` with a layout and a text, `Date` with a year
-- and the local zone, and the year of a reading of the clock.
pub record Matchers : Type 0 where
  pub failed : Text → Option Match
  pub accepted : Text → Option Match
  pub invalid : Text → Option Match
  pub parse_time : Text → Text → Option Moment
  pub date : ℕ → Moment → ℕ
  pub year_of : ℕ → ℕ

pub record Parser : Type 0 where
  pub log_path : Option Text
  pub last_offset : ℕ
  pub warned : Bool

abbrev pub or_else : Option Moment → Option Moment → Option Moment
or_else none later = later
or_else (some t) later = some t

-- The two layouts of `parseTimestamp`
abbrev pub moment_of : Matchers → Text → Option Moment
moment_of m s =
    or_else (m.parse_time (bytes "Jan  2 15:04:05") s) (m.parse_time (bytes "Jan _2 15:04:05") s)

abbrev pub date_or_now : Env → Matchers → ℕ → World → Option Moment → ℕ × World
date_or_now env m year w none = (env.clock w.reads, record w { reads = suc w.reads })
date_or_now env m year w (some t) = (m.date year t, w)

unfoldable pub parse_timestamp : Env → Matchers → Text → ℕ → World → ℕ × World
parse_timestamp env m s year w = date_or_now env m year w (moment_of m s)

abbrev pub event_of : Text → Match → ℕ → SshEvent
event_of type g time = record {
  id = 0;
  occurred_at = time;
  event_type = type;
  username = some g.user;
  source_ip = g.ip;
  port = some g.port;
}

-- The type of the event that a line tells, and its groups.
unfoldable pub match_line : Matchers → Text → Option (Text × Match)
match_line m line = elim (m.failed line) [
  | some g ↦ some (bytes "failed", g)
  | none ↦ elim (m.accepted line) [
    | some g ↦ some (bytes "success", g)
    | none ↦ elim (m.invalid line) [ some g ↦ some (bytes "invalid_user", g) | none ↦ none ]
  ]
]

abbrev pub dated_event : Text → Match → ℕ × World → Option SshEvent × World
dated_event type g (time, w) = (some (event_of type g time), w)

abbrev pub after_match :
    Env → Matchers → ℕ → World → Option (Text × Match) → Option SshEvent × World
after_match env m year w none = (none, w)
after_match env m year w (some (type, g)) =
    dated_event type g (parse_timestamp env m g.stamp year w)

unfoldable pub parse_auth_log_line : Env → Matchers → Text → ℕ → World → Option SshEvent × World
unfolding match_line parse_timestamp
parse_auth_log_line env m line year w = after_match env m year w (match_line m line)

abbrev newline : ℕ
newline = 10

abbrev pub push_byte : ℕ → List Text → List Text
push_byte c [] = (c ∷ []) ∷ []
push_byte c (l ∷ ls) = (c ∷ l) ∷ ls

-- The tokens of a Scanner: a last line needs no newline.
unfoldable pub lines_of : Text → List Text
lines_of [] = []
lines_of (c ∷ s) = let rest = lines_of s in if c == newline then [] ∷ rest else push_byte c rest

-- A carriage return at the end of a line is dropped.
unfoldable pub drop_return : Text → Text
drop_return [] = []
drop_return (c ∷ []) = if c == 13 then [] else c ∷ []
drop_return (c ∷ d ∷ s) = c ∷ drop_return (d ∷ s)

abbrev pub store_event : Env → Option SshEvent × World → World
store_event env (none, w) = w
store_event env (some e, w) = (insert_ssh_event env e w).1

-- A round of the loop over the lines; the error of an insertion is dropped.
unfoldable pub ingest_line : Env → Matchers → ℕ → Text → World → World
ingest_line env m year line w =
    store_event env (parse_auth_log_line env m (drop_return line) year w)

unfoldable pub ingest : Env → Matchers → ℕ → List Text → World → World
ingest env m year [] w = w
ingest env m year (line ∷ rest) w = ingest env m year rest (ingest_line env m year line w)

abbrev pub open_failed : Error
open_failed = failure (bytes "open auth log")

-- A file that is shorter than it was has been rotated, and is read from its start.
abbrev pub start_offset : Parser → Text → ℕ
start_offset p content = if ltb (length content) p.last_offset then 0 else p.last_offset

abbrev pub too_long : Error
too_long = failure (bytes "bufio.Scanner: token too long")

-- `scanner.Err()`
abbrev pub scan_error : Option ℕ → Result (Unit {0})
scan_error none = ok tt
scan_error (some n) = err too_long

-- Where the file stands after the scan: at its end, or behind what was read when a line did not fit.
abbrev pub offset_after : ℕ → Text → Option ℕ → ℕ
offset_after start content none = length content
offset_after start content (some n) = start + n

abbrev pub scan_content :
    Env → Matchers → ℕ → Text → Parser → World → Parser × Result (Unit {0}) × World
scan_content env m year content p w =
    let start = start_offset p content in
    let lines = lines_of (drop start content) in
    (
      record p { last_offset = offset_after start content (stop_at lines) },
      scan_error (stop_at lines),
      ingest env m year (tokens lines) w,
    )

-- The year is that of the clock when the scan starts.
abbrev pub parse_content :
    Env → Matchers → Text → Parser → World → Parser × Result (Unit {0}) × World
parse_content env m content p w =
    scan_content env m (m.year_of (env.clock w.reads)) content p (record w { reads = suc w.reads })

abbrev pub parse_file :
    Env → Matchers → Option Text → Parser → World → Parser × Result (Unit {0}) × World
parse_file env m none p w = (p, err open_failed, w)
parse_file env m (some content) p w = parse_content env m content p w

abbrev pub parse_path :
    Env → Matchers → Option Text → Parser → World → Option Text → Parser × Result (Unit {0}) × World
parse_path env m file p w none = (record p { warned = true }, ok tt, w)
parse_path env m file p w (some path) = parse_file env m file p w

unfoldable pub parse :
    Env → Matchers → Option Text → Parser → World → Parser × Result (Unit {0}) × World
unfolding lines_of tokens stop_at ingest
parse env m file p w = parse_path env m file p w p.log_path

abbrev pub first_existing : (Text → Bool) → List Text → Option Text
first_existing exists [] = none
first_existing exists (path ∷ rest) = if exists path then some path else first_existing exists rest

-- `newParser`: the first candidate that exists is the log.
unfoldable pub new_parser : (Text → Bool) → Parser
new_parser exists = record {
  log_path = first_existing exists (bytes "/var/log/auth.log" ∷ bytes "/var/log/secure" ∷ []);
  last_offset = 0;
  warned = false;
}
