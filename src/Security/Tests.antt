-- ===== src/Security/Tests.antt =====
-- The parser and the search of internal/security/authlog.go at concrete texts.
use monitoring.Base.{
  of_nat, sort_desc, length, take, keep, Text, bytes, cut_prefix, fits, tokens, stop_at, pos, suc,
  ◌≡◌, refl, true, false, none, some, List, [], ◌∷◌, ◌++◌, map, arith,
}
use monitoring.Storage.{SshEvent, new_tables, ok, Env, World, insert_ssh_event, by_occurred_at}
use monitoring.Security.Snapshot.{snapshot, is_failure, is_success, snapshot-events}
use monitoring.Security.Search.{lower_byte, matches_at, find_ci, contains_ci}
use monitoring.Tunnel.Names.{contains}
use monitoring.Security.Updates.{update_counts}
use monitoring.Security.Patterns.{
  fronts, item_ways, group_ways, pattern_ways, find_submatch, auth_matchers,
}
use monitoring.Security.AuthLog.{
  Moment, Matchers, Parser, parse_timestamp, match_line, parse_auth_log_line, lines_of, drop_return,
  ingest_line, ingest, parse, new_parser,
}
use monitoring.Security.Recorded.{is_dated, no_id, recorded}
use monitoring.Security.Ingest.{ends_line, at_reads, new_lines, parse_twice}
use monitoring.Security.Occurrences.{Occurs, contains_ci-Occurs}

abbrev plain_env : Env
plain_env = record { faults = λ n. none; clock = λ n. n; percent = λ a b. of_nat 100 }

abbrev first_moment : Moment
first_moment = record { month = 1; day = 4; hour = 10; minute = 0; second = 0 }

-- Every line is a failed login of its own text.
abbrev every_line : Matchers
every_line = record {
  failed = λ line. some (record { stamp = []; user = line; ip = []; port = [] });
  accepted = λ line. none;
  invalid = λ line. none;
  parse_time = λ layout s. some first_moment;
  date = λ year t. year;
  year_of = λ n. 2024;
}

abbrev log_parser : Parser
log_parser = new_parser (λ path. true)

abbrev blank_world : World
blank_world = record { tables = new_tables; calls = 0; reads = 0 }

abbrev old_log : Text
old_log = bytes "ab" ++ 10 ∷ []

abbrev new_log : Text
new_log = bytes "c" ++ 10 ∷ bytes "d"

abbrev system_matchers : Matchers
system_matchers = auth_matchers (λ layout s. some first_moment) (λ year t. year) (λ n. 2024)

abbrev login : Text → Text → Text → Text → SshEvent
login type user ip port = record {
  id = 0;
  occurred_at = 2024;
  event_type = type;
  username = some user;
  source_ip = ip;
  port = some port;
}

failed_login :
    parse_auth_log_line plain_env system_matchers
      (bytes
        "Jan  4 10:00:00 host sshd[7]: Failed password for invalid user bob from 10.0.0.1 port 22 ssh2")
      2024
      blank_world
    ≡ (some (login (bytes "failed") (bytes "bob") (bytes "10.0.0.1") (bytes "22")), blank_world)
unfolding auth_matchers find_submatch pattern_ways group_ways item_ways fronts cut_prefix
    parse_auth_log_line match_line parse_timestamp
failed_login = refl

accepted_login :
    parse_auth_log_line plain_env system_matchers
      (bytes "Jan 14 10:00:00 host sshd[7]: Accepted publickey for ann from 10.0.0.1 port 50 ssh2")
      2024
      blank_world
    ≡ (some (login (bytes "success") (bytes "ann") (bytes "10.0.0.1") (bytes "50")), blank_world)
unfolding auth_matchers find_submatch pattern_ways group_ways item_ways fronts cut_prefix
    parse_auth_log_line match_line parse_timestamp
accepted_login = refl

-- The name that the client at 10.0.0.1 tried is itself a message, and its address is taken.
forged_address :
    parse_auth_log_line plain_env system_matchers
      (bytes
        "Jan  4 10:00:00 host sshd[7]: Invalid user Invalid user a from 9.9.9.9 port 1 from 10.0.0.1 port 22")
      2024
      blank_world
    ≡ (some (login (bytes "invalid_user") (bytes "a") (bytes "9.9.9.9") (bytes "1")), blank_world)
unfolding auth_matchers find_submatch pattern_ways group_ways item_ways fronts cut_prefix
    parse_auth_log_line match_line parse_timestamp
forged_address = refl

-- Three lines are stored, the last one without its newline.
stored :
    length
      (parse plain_env every_line
        (some (old_log ++ new_log))
        log_parser
        blank_world).2.tables.ssh_events
    ≡ 3
unfolding parse lines_of ingest ingest_line new_parser insert_ssh_event parse_auth_log_line
    drop_return new_tables tokens stop_at fits match_line parse_timestamp
stored = refl

parse_twice_example :
    let (p, r, w) = parse plain_env every_line (some old_log) log_parser blank_world in
    let (p1, r1, w1) =
      parse plain_env every_line (some (old_log ++ new_log)) log_parser blank_world in
    (r ≡ ok tt)
    × (r1 ≡ ok tt)
    × (parse plain_env every_line (some (old_log ++ new_log)) p w
        ≡ (p1, r1, at_reads (suc w1.reads) w1))
    × (map no_id w1.tables.ssh_events
        ≡ recorded plain_env every_line 2024 0 (new_lines log_parser (old_log ++ new_log)) [])
unfolding new_parser ends_line lines_of fits is_dated match_line new_tables
parse_twice_example =
    parse_twice plain_env every_line (bytes "/var/log/auth.log") old_log new_log log_parser
      blank_world refl (omega arith) refl (refl, (refl, (refl, tt))) (refl, (refl, (refl, tt))) refl

contains_ci-Occurs_example :
    ((contains_ci (bytes "Security") (bytes "sec") ≡ true)
      → Occurs (bytes "sec") (bytes "Security"))
    × (Occurs (bytes "sec") (bytes "Security")
        → contains_ci (bytes "Security") (bytes "sec") ≡ true)
contains_ci-Occurs_example = contains_ci-Occurs (bytes "Security") (bytes "sec")

-- A needle with a capital letter is not found in its own text.
capital_needle : contains_ci (bytes "Security") (bytes "Security") ≡ false
unfolding contains_ci find_ci matches_at lower_byte
capital_needle = refl

abbrev login_world : World
login_world = (parse plain_env every_line (some old_log) log_parser blank_world).2

abbrev updates : List Text
updates = bytes "Inst vim" ∷ bytes "Inst openssl [1.1] (1.2 Debian-Security:12)" ∷ []

-- One of two updates is for security.
counted_updates : update_counts (some updates) ≡ (pos 2, pos 1)
unfolding tokens fits contains cut_prefix
counted_updates = refl

snapshot-events_example :
    let (s, r, w) = snapshot plain_env (some updates) log_parser login_world in
    let events = take 50 (sort_desc by_occurred_at login_world.tables.ssh_events) in
    (r ≡ ok tt)
    × (s.recent_failed ≡ keep is_failure events)
    × (s.recent_success ≡ keep is_success events)
    × ((s.pending_updates, s.pending_sec_updates) ≡ update_counts (some updates))
    × (w.tables ≡ login_world.tables)
snapshot-events_example =
    snapshot-events plain_env (λ n. refl) (some updates) log_parser login_world
