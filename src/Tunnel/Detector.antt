-- ===== src/Tunnel/Detector.antt =====
-- internal/tunnel/tunnel.go: the detector. What gopsutil lists, and what `cloudflared --version`
-- prints, are arguments: a list or a text that the library or the command fails to give is none.
use monitoring.Base.{
  if◌then◌else◌, Text, bytes, text_discrete, ℤ, pos, ℕ, suc, ite, Bool, true, false, Option, none,
  some, List, [], ◌∷◌,
}
use monitoring.Tunnel.Names.{is_cloudflared, version_in}
use monitoring.Storage.{
  TunnelEvent, Result, ok, err, Env, World, insert_tunnel_event, recent_tunnel_events,
}

-- A process as far as `Collect` asks for it; what cannot be had is none. `uptime` is the time since its
-- creation.
pub record Process : Type 0 where
  pub name : Option Text
  pub pid : ℕ
  pub uptime : Option ℤ
  pub cmdline : Option (List Text)

pub record Status : Type 0 where
  pub collected_at : ℕ
  pub running : Bool
  pub pid : ℕ
  pub uptime_seconds : ℤ
  pub tunnel_name : Text
  pub version : Text
  pub recent_events : List TunnelEvent

pub record Detector : Type 0 where
  pub last_running : Bool
  pub cached_version : Text
  pub version_detected : Bool

unfoldable pub new_detector : Detector
new_detector = record { last_running = false; cached_version = []; version_detected = false }

abbrev is_name_flag : Text → Bool
is_name_flag arg =
    ite (text_discrete arg (bytes "--name")) true (ite (text_discrete arg (bytes "run")) true false)

-- The last argument has none behind it.
unfoldable pub tunnel_name_from_args : List Text → Text
tunnel_name_from_args [] = []
tunnel_name_from_args (arg ∷ []) = []
tunnel_name_from_args (arg ∷ next ∷ rest) =
    let later = tunnel_name_from_args (next ∷ rest) in if is_name_flag arg then next else later

unfoldable pub find_process : List Process → Option Process
unfolding is_cloudflared
find_process [] = none
find_process (p ∷ ps) = elim p.name [
  | none ↦ find_process ps
  | some name ↦ let rest = find_process ps in if is_cloudflared name then some p else rest
]

abbrev pub version_of : Option Text → Option Text
version_of none = none
version_of (some output) = version_in output

-- The output is none where the command fails.
unfoldable pub get_version : Option Text → Detector → Text × Detector
unfolding version_in
get_version output d =
    if d.version_detected then (d.cached_version, d) else elim (version_of output) [
      | none ↦ (d.cached_version, record d { version_detected = true })
      | some v ↦ (v, record d { version_detected = true; cached_version = v })
    ]

abbrev pub or_zero : Option ℤ → ℤ
or_zero none = pos 0
or_zero (some n) = n

abbrev pub name_or_empty : Option (List Text) → Text
name_or_empty none = []
name_or_empty (some args) = tunnel_name_from_args args

abbrev pub connected : Text
connected = bytes "connected"

abbrev pub disconnected : Text
disconnected = bytes "disconnected"

abbrev pub event_at : ℕ → Text → TunnelEvent
event_at time type = record { id = 0; occurred_at = time; event_type = type; detail = none }

-- The event of a transition; the error of its insertion is dropped.
unfoldable pub log_transition : Env → Bool → Bool → ℕ → World → World
log_transition env true false time w = (insert_tunnel_event env (event_at time disconnected) w).1
log_transition env false true time w = (insert_tunnel_event env (event_at time connected) w).1
log_transition env true true time w = w
log_transition env false false time w = w

abbrev pub events_or_none : Result (List TunnelEvent) → List TunnelEvent
events_or_none (ok events) = events
events_or_none (err e) = []

-- What `Collect` knows once it has looked for the process.
abbrev pub look : Option Process → Option Text → ℕ → Detector → Status × Detector
look none found time d = (
  record {
    collected_at = time;
    running = false;
    pid = 0;
    uptime_seconds = pos 0;
    tunnel_name = [];
    version = [];
    recent_events = [];
  },
  d,
)
look (some p) found time d =
    let (v, d') = get_version found d in
    (
      record {
        collected_at = time;
        running = true;
        pid = p.pid;
        uptime_seconds = or_zero p.uptime;
        tunnel_name = name_or_empty p.cmdline;
        version = v;
        recent_events = [];
      },
      d',
    )

abbrev pub processes_or_none : Option (List Process) → List Process
processes_or_none none = []
processes_or_none (some ps) = ps

unfoldable pub collect :
    Env → Option (List Process) → Option Text → Detector → World → Status × Detector × World
unfolding get_version log_transition find_process
collect env procs found d w =
    let (s, d') = look (find_process (processes_or_none procs)) found (env.clock w.reads) d in
    let w1 =
      log_transition env d.last_running s.running (env.clock (suc w.reads))
        (record w { reads = suc (suc w.reads) }) in
    let (events, w2) = recent_tunnel_events env 10 w1 in
    (record s { recent_events = events_or_none events }, record d' { last_running = s.running }, w2)
