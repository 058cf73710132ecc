-- ===== src/Server/Tests.antt =====
-- cmd/server/main.go: a fast tick with one check that is down, and a run of ten turns.
use mathlib.Core.List.{Memᴰ}
use monitoring.Base.{
  one_units, of_nat, float_units, div_units, second, half_even, excess, nearest, take, lookup, Text,
  bytes, pos, ℕ, ◌*◌, ◌≡◌, refl, true, false, Option, none, some, List, [], ◌∷◌, arith,
}
use monitoring.Storage.{UrlCheck, default_thresholds, new_tables, Env, World, migrate}
use monitoring.Alerts.Engine.{url_kind, evaluate}
use monitoring.Alerts.Rounds.{is_active}
use monitoring.Tunnel
use monitoring.Tunnel.Detector.{Status}
use monitoring.Metrics.App.{AppReadings, pause_ms, collect_app}
use monitoring.Metrics.Network.{NetworkSnapshot, collect_network}
use monitoring.Alerts.Sync.{open_ids}
use monitoring.UrlCheck.Probe.{responded}
use monitoring.Http.Messages.{post_method, put_method, CreateRequest}
use monitoring.Http.History.{asks_all, probes}
use monitoring.Server.Loops.{
  Server, Payload, alert_payload, metrics_payload, tunnel_payload, services_payload, url_payload,
  FastReadings, SlowReadings, fast_tick,
}
use monitoring.Server.Program.{
  boot, start_program, Turn, fast_turn, slow_turn, purge_turn, relay_turn, restart_turn, check_turn,
  acknowledge_turn, threshold_turn, Surroundings, continue, run_turns,
}
use monitoring.Server.Soundness.{EndsSound, program-IsSound}
use monitoring.Server.Broadcasts.{tick_events, fast_tick-broadcast}
use monitoring.Metrics.Readings.{Partition, Readings}
use monitoring.Metrics.System.{collect_system}
use monitoring.UrlCheck.Checker.{CheckResult, Summary, request, Checker, new_checker, all_summaries}
use monitoring.UrlCheck.Running.{IsTidy}
use monitoring.Sse.Broker.{broadcast_cap, new_broker}
use monitoring.Http.Handlers.{App}
use monitoring.Server.Collector.{metrics_of}
use monitoring.Server.Ticks.{fast_tick-urls}

abbrev even_env : Env
even_env = record { faults = λ n. none; clock = λ n. n; percent = λ a b. of_nat 100 }

abbrev down_check : UrlCheck
down_check = record {
  id = 4;
  url = bytes "http://b";
  label = [];
  interval_seconds = pos 60;
  timeout_seconds = pos 10;
  enabled = true;
  created_at = 0;
}

abbrev down_result : CheckResult
down_result = record {
  check_id = 4;
  checked_at = 1;
  up = false;
  status_code = some 500;
  latency_ms = some 3;
  error = none;
  url = [];
  label = [];
}

abbrev down_summary : Summary
down_summary = record {
  check = down_check;
  last_result = some down_result;
  uptime_pct = of_nat 0;
  history = down_result ∷ [];
}

abbrev down_checker : Checker
down_checker = record new_checker { summaries = (4, down_summary) ∷ [] }

down_checker-IsTidy : IsTidy down_checker
unfolding new_checker lookup
down_checker-IsTidy = record {
  owned = tt;
  one_id = λ i j h e f. cc;
  below = λ i h e. cc;
  single = λ i. omega arith;
  shown = λ i h e. cc;
  keys = (tt, tt);
  bounded = λ i s e. ground arith;
}

abbrev down_app : App
down_app = record {
  engine = record { thresholds = default_thresholds; active = [] };
  checker = down_checker;
  world = record { tables = new_tables; calls = 0; reads = 0 };
}

abbrev root_disk : Partition
root_disk = record { mountpoint = bytes "/"; fstype = bytes "ext4" }

abbrev proc_disk : Partition
proc_disk = record { mountpoint = bytes "/proc"; fstype = bytes "proc" }

abbrev readings_now : Readings
readings_now = record {
  now = 5 * second;
  cpu = some (of_nat 1 ∷ []);
  per_core = none;
  load = none;
  memory = some (record { total = 8; used = 4; used_percent = of_nat 50 });
  swap = none;
  partitions = some (proc_disk ∷ root_disk ∷ []);
  usage = λ m. some (record { total = 8; used = 4; used_percent = of_nat 50 });
  disk_counters = none;
  net_counters = none;
  uptime = none;
}

abbrev nothing_wild : ℕ → ℕ
nothing_wild a = 0

abbrev app_now : AppReadings
app_now = record {
  now = 5 * second;
  num_goroutine = 9;
  since_start = 5 * second;
  heap_alloc = 1;
  heap_sys = 2;
  pause_total_ns = 3_000_000;
  num_gc = 1;
  process = none;
}

abbrev fast_now : FastReadings
fast_now = record {
  system = readings_now;
  app = app_now;
  connections = some [];
  processes = some [];
  version = none;
}

-- What is marshalled is spelled by its kind; a snapshot of the services cannot be marshalled.
abbrev spell : Payload → Option Text
spell (alert_payload a) = some a.kind
spell (metrics_payload sys app net) = some (bytes "m")
spell (tunnel_payload t) = some (bytes "t")
spell (services_payload v) = none
spell (url_payload r) = some (bytes "u")

abbrev start_tables : World
start_tables = record { tables = new_tables; calls = 0; reads = 0 }

abbrev down_server : Server
down_server = record (boot even_env (λ path. false) [] start_tables) {
  app = down_app;
  broker = new_broker;
}

pause_of_app : (collect_app app_now).gc_pause_total_ms ≡ of_nat 3
unfolding collect_app pause_ms nearest half_even excess one_units float_units div_units of_nat
pause_of_app = refl

fast_tick-urls_example :
    (s' : Server) × (fast_tick even_env spell nothing_wild fast_now down_server ≡ some s')
    × (is_active (url_kind 4) s'.app.engine.active ≡ true)
unfolding all_summaries
fast_tick-urls_example =
    fast_tick-urls even_env spell nothing_wild fast_now down_server down_summary (λ n. refl)
      (((λ e. cc), tt), (tt, tt)) tt down_checker-IsTidy (Memᴰ.head refl)

abbrev tunnel_now : Status × Tunnel.Detector.Detector × World
tunnel_now =
    Tunnel.Detector.collect even_env fast_now.processes fast_now.version down_server.detector
      down_app.world

fast_tick-broadcast_example :
    (net : NetworkSnapshot) × (s' : Server) × (collect_network (some []) ≡ some net)
    × (fast_tick even_env spell nothing_wild fast_now down_server ≡ some s')
    × (s'.broker.broadcast
        ≡ take broadcast_cap (
            tick_events spell
              (evaluate even_env down_app.engine
                (metrics_of
                  (collect_system nothing_wild readings_now down_server.collector).0
                  down_checker)
                tunnel_now.2).0.fired
              (collect_system nothing_wild readings_now down_server.collector).0
              (collect_app app_now)
              net
              tunnel_now.0))
    × (s'.latest.system ≡ some (collect_system nothing_wild readings_now down_server.collector).0)
    × (s'.latest.app ≡ some (collect_app app_now))
    × (s'.latest.network ≡ some net)
    × (s'.latest.tunnel ≡ some tunnel_now.0)
unfolding new_broker
fast_tick-broadcast_example =
    fast_tick-broadcast even_env spell nothing_wild fast_now down_server (omega arith) tt

abbrev surroundings : Surroundings
surroundings = record {
  env = even_env;
  encode = spell;
  wild = nothing_wild;
  matchers = record {
    failed = λ line. none;
    accepted = λ line. none;
    invalid = λ line. none;
    parse_time = λ layout s. none;
    date = λ year t. year;
    year_of = λ n. n;
  };
  time = λ t. none;
  exists = λ path. false;
  services = [];
}

abbrev slow_now : SlowReadings
slow_now = record { log = none; updates = none; at = 6; available = false; shown = λ name. none }

abbrev new_request : CreateRequest
new_request = record {
  url = bytes "http://a";
  label = [];
  interval_seconds = pos 0;
  timeout_seconds = pos 0;
  enabled = none;
}

abbrev busy_turns : List Turn
busy_turns =
    fast_turn fast_now
    ∷ check_turn (asks_all (request 1) post_method (some new_request))
    ∷ check_turn (probes down_check (responded 500 3))
    ∷ relay_turn
    ∷ threshold_turn put_method (some ((bytes "cpu_pct", of_nat 50) ∷ []))
    ∷ slow_turn slow_now
    ∷ acknowledge_turn post_method (bytes "1")
    ∷ purge_turn
    ∷ restart_turn
    ∷ fast_turn fast_now
    ∷ []

program-IsSound_example : EndsSound (
    continue
      (run_turns surroundings busy_turns)
      (start_program even_env (λ path. false) [] 0 0 none))
unfolding open_ids lookup new_tables migrate
program-IsSound_example =
    program-IsSound surroundings (λ n. refl) [] (λ path. false) [] none busy_turns
      (record { fresh = tt; agree = λ k. refl }) (record { ids = tt; urls = tt; below = tt })
      (tt, (tt, (tt, (tt, (tt, (tt, (tt, (tt, (tt, (tt, tt))))))))))
