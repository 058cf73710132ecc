-- ===== src/Server/Frames.antt =====
-- What the functions of internal/storage/sqlite.go, and the parts that call them, leave as it is of the
-- tables alerts and url_checks.
use monitoring.Base.{
  drop, Text, tokens, ℕ, suc, ◌-◌, ◌*◌, ◌≡◌, refl, ◌∙◌, Bool, true, false, Option, none, some, List,
  [], ◌∷◌, arith,
}
use monitoring.Storage.{
  SshEvent, TunnelEvent, IpCount, Tables, Result, ok, err, Env, World, insert_ssh_event,
  recent_ssh_events, failed_ssh_by_ip, insert_tunnel_event, recent_tunnel_events,
}
use monitoring.Tunnel.Detector
use monitoring.Tunnel.Detector.{
  Process, Detector, find_process, connected, disconnected, event_at, log_transition, look,
  processes_or_none,
}
use monitoring.Security.AuthLog.{
  Match, Moment, Matchers, Parser, moment_of, date_or_now, parse_timestamp, match_line, after_match,
  parse_auth_log_line, lines_of, drop_return, store_event, ingest_line, ingest, start_offset,
  parse_file, parse_path, parse,
}
use monitoring.Security.Snapshot.{Snapshot, add_events, after_groups, after_recent_events, snapshot}

pub record SameAlerts (t t' : Tables) : Type 0 where
  pub rows : t'.alerts ≡ t.alerts
  pub next : t'.next_alert ≡ t.next_alert

pub record SameChecks (t t' : Tables) : Type 0 where
  pub rows : t'.url_checks ≡ t.url_checks
  pub next : t'.next_check ≡ t.next_check

pub SameAlerts-trans : {t u v : Tables} → SameAlerts t u → SameAlerts u v → SameAlerts t v
SameAlerts-trans p q = record { rows = q.rows ∙ p.rows; next = q.next ∙ p.next }

pub SameChecks-trans : {t u v : Tables} → SameChecks t u → SameChecks u v → SameChecks t v
SameChecks-trans p q = record { rows = q.rows ∙ p.rows; next = q.next ∙ p.next }

-- Nothing of the two tables is touched.
abbrev pub SameBoth : World → World → Type 0
SameBoth w w' = SameAlerts w.tables w'.tables × SameChecks w.tables w'.tables

abbrev pub KeepsBoth : Tables → Tables → Type 0
KeepsBoth t t' = SameAlerts t t' × SameChecks t t'

pub untouched :
    {t t' : Tables}
    → t'.alerts ≡ t.alerts
    → t'.next_alert ≡ t.next_alert
    → t'.url_checks ≡ t.url_checks
    → t'.next_check ≡ t.next_check
    → KeepsBoth t t'
untouched a n c m = (record { rows = a; next = n }, record { rows = c; next = m })

pub SameBoth-trans :
    {t u v : Tables}
    → SameAlerts t u × SameChecks t u
    → SameAlerts u v × SameChecks u v
    → SameAlerts t v × SameChecks t v
SameBoth-trans p q = (SameAlerts-trans p.0 q.0, SameChecks-trans p.1 q.1)

pub SameBoth-refl : {t : Tables} → SameAlerts t t × SameChecks t t
SameBoth-refl = (record { rows = refl; next = refl }, record { rows = refl; next = refl })

module _ (env : Env) where
  insert_tunnel_event-Same :
      (e : TunnelEvent) (w : World) → SameBoth w (insert_tunnel_event env e w).1
  unfolding insert_tunnel_event
  insert_tunnel_event-Same e w =
      untouched (ground arith) (ground arith) (ground arith) (ground arith)

  recent_tunnel_events-Same : (n : ℕ) (w : World) → SameBoth w (recent_tunnel_events env n w).1
  unfolding recent_tunnel_events
  recent_tunnel_events-Same n w =
      untouched (ground arith) (ground arith) (ground arith) (ground arith)

  log_transition-Same :
      (was is : Bool) (time : ℕ) (w : World) → SameBoth w (log_transition env was is time w)
  unfolding log_transition
  log_transition-Same true false time w = insert_tunnel_event-Same (event_at time disconnected) w
  log_transition-Same false true time w = insert_tunnel_event-Same (event_at time connected) w
  log_transition-Same true true time w = SameBoth-refl
  log_transition-Same false false time w = SameBoth-refl

  pub collect-Same :
      (procs : Option (List Process)) (found : Option Text) (d : Detector) (w : World)
      → SameBoth w (Detector.collect env procs found d w).2
  unfolding Detector.collect
  collect-Same procs found d w =
      let (s, d') = look (find_process (processes_or_none procs)) found (env.clock w.reads) d in
      let time = env.clock (suc w.reads) in
      let w0 = record w { reads = suc (suc w.reads) } in
      SameBoth-trans (log_transition-Same d.last_running s.running time w0)
        (recent_tunnel_events-Same 10 (log_transition env d.last_running s.running time w0))

  insert_ssh_event-Same : (e : SshEvent) (w : World) → SameBoth w (insert_ssh_event env e w).1
  unfolding insert_ssh_event
  insert_ssh_event-Same e w = untouched (ground arith) (ground arith) (ground arith) (ground arith)

  store_event-Same : (e : Option SshEvent × World) → SameBoth e.1 (store_event env e)
  store_event-Same (none, w) = SameBoth-refl
  store_event-Same (some e, w) = insert_ssh_event-Same e w

  date_or_now-Same :
      (m : Matchers) (year : ℕ) (w : World) (found : Option Moment)
      → SameBoth w (date_or_now env m year w found).1
  date_or_now-Same m year w none = untouched refl refl refl refl
  date_or_now-Same m year w (some t) = SameBoth-refl

  after_match-Same :
      (m : Matchers) (year : ℕ) (w : World) (found : Option (Text × Match))
      → SameBoth w (after_match env m year w found).1
  unfolding parse_timestamp
  after_match-Same m year w none = SameBoth-refl
  after_match-Same m year w (some (type, g)) = date_or_now-Same m year w (moment_of m g.stamp)

  ingest_line-Same :
      (m : Matchers) (year : ℕ) (line : Text) (w : World)
      → SameBoth w (ingest_line env m year line w)
  unfolding ingest_line parse_auth_log_line
  ingest_line-Same m year line w =
      SameBoth-trans (after_match-Same m year w (match_line m (drop_return line)))
        (store_event-Same (parse_auth_log_line env m (drop_return line) year w))

  ingest-Same :
      (m : Matchers) (year : ℕ) (lines : List Text) (w : World)
      → SameBoth w (ingest env m year lines w)
  unfolding ingest
  ingest-Same m year [] w = SameBoth-refl
  ingest-Same m year (line ∷ rest) w =
      SameBoth-trans (ingest_line-Same m year line w)
        (ingest-Same m year rest (ingest_line env m year line w))

  parse_file-Same :
      (m : Matchers) (file : Option Text) (p : Parser) (w : World)
      → SameBoth w (parse_file env m file p w).2
  parse_file-Same m none p w = SameBoth-refl
  parse_file-Same m (some content) p w = SameBoth-trans (untouched refl refl refl refl) (
      ingest-Same m (m.year_of (env.clock w.reads))
        (tokens (lines_of (drop (start_offset p content) content)))
        (record w { reads = suc w.reads }))

  parse_path-Same :
      (m : Matchers) (file : Option Text) (p : Parser) (w : World) (path : Option Text)
      → SameBoth w (parse_path env m file p w path).2
  parse_path-Same m file p w none = SameBoth-refl
  parse_path-Same m file p w (some path) = parse_file-Same m file p w

  pub parse-Same :
      (m : Matchers) (file : Option Text) (p : Parser) (w : World)
      → SameBoth w (parse env m file p w).2
  unfolding parse
  parse-Same m file p w = parse_path-Same m file p w p.log_path

  recent_ssh_events-Same : (n : ℕ) (w : World) → SameBoth w (recent_ssh_events env n w).1
  unfolding recent_ssh_events
  recent_ssh_events-Same n w = untouched (ground arith) (ground arith) (ground arith) (ground arith)

  failed_ssh_by_ip-Same : (since : ℕ) (w : World) → SameBoth w (failed_ssh_by_ip env since w).1
  unfolding failed_ssh_by_ip
  failed_ssh_by_ip-Same since w =
      untouched (ground arith) (ground arith) (ground arith) (ground arith)

  after_groups-Same :
      (out : Option (List Text)) (s : Snapshot) (x : Result (List IpCount) × World)
      → SameBoth x.1 (after_groups out s x).2
  after_groups-Same out s (ok ips, w) = SameBoth-refl
  after_groups-Same out s (err e, w) = SameBoth-refl

  after_recent_events-Same :
      (out : Option (List Text)) (s : Snapshot) (x : Result (List SshEvent) × World)
      → SameBoth x.1 (after_recent_events env out s x).2
  after_recent_events-Same out s (ok events, w) =
      let w1 = record w { reads = suc w.reads } in
      let since = env.clock w.reads - 24 * 3600 in
      SameBoth-trans (failed_ssh_by_ip-Same since w1)
        (after_groups-Same out (add_events events s) (failed_ssh_by_ip env since w1))
  after_recent_events-Same out s (err e, w) = SameBoth-refl

  pub snapshot-Same :
      (out : Option (List Text)) (p : Parser) (w : World) → SameBoth w (snapshot env out p w).2
  unfolding snapshot
  snapshot-Same out p w =
      let w1 = record w { reads = suc w.reads } in
      SameBoth-trans (recent_ssh_events-Same 50 w1)
        (after_recent_events-Same out _ (recent_ssh_events env 50 w1))
