-- ===== src/Server/Program.antt =====
-- cmd/server/main.go: the start of `main`, and the turns that its goroutines and the requests take. A turn
-- is a round of a loop, a probe of a check, a request, or an end of the program and a new start on the
-- same file; turns do not overlap.
use monitoring.Base.{Float64, Text, ℕ, Bool, Option, none, some, List, [], ◌∷◌}
use monitoring.Storage.{Tables, Result, ok, err, Env, World, open_database}
use monitoring.Alerts.Engine.{Engine, new_engine, load_thresholds}
use monitoring.Metrics
use monitoring.Tunnel.Detector.{new_detector}
use monitoring.Security.AuthLog.{Matchers, new_parser}
use monitoring.Services.Monitor.{new_monitor}
use monitoring.UrlCheck.Checker.{background, Checker, new_checker, start}
use monitoring.Sse.Broker.{new_broker}
use monitoring.Http.Messages.{Method}
use monitoring.Http.Handlers.{App, handle_acknowledge_alert, handle_thresholds}
use monitoring.Http.History.{Request, serve}
use monitoring.Server.Loops.{
  Cache, Server, Payload, FastReadings, SlowReadings, fast_tick, slow_tick, purge_tick,
  relay_result,
}

abbrev empty_cache : Cache
empty_cache = record {
  system = none;
  app = none;
  network = none;
  security = none;
  tunnel = none;
  services = none;
}

abbrev server_of :
    (Text → Bool)
    → List Text
    → Engine × Result (Unit {0}) × World
    → Checker × Result (Unit {0}) × World
    → Server
server_of exists services (engine, _, _) (checker, _, w) = record {
  app = record { engine = engine; checker = checker; world = w };
  broker = new_broker;
  collector = Metrics.System.new_collector;
  detector = new_detector;
  parser = new_parser exists;
  services = new_monitor services;
  latest = empty_cache;
}

-- `main` up to the background goroutines: the errors of `LoadThresholds` and `Start` are only logged.
unfoldable pub boot : Env → (Text → Bool) → List Text → World → Server
boot env exists services w =
    let loaded = load_thresholds env new_engine w in
    server_of exists services loaded (start env background new_checker loaded.2)

-- An error of `Open` ends the program: `log.Fatalf`.
unfoldable pub start_program :
    Env → (Text → Bool) → List Text → ℕ → ℕ → Option Tables → Option Server
unfolding boot
start_program env exists services calls reads file = elim (open_database env calls reads file) [
  | err e ↦ none
  | ok w ↦ some (boot env exists services w)
]

pub data Turn : Type 0 where
  fast_turn : FastReadings → Turn
  slow_turn : SlowReadings → Turn
  purge_turn relay_turn restart_turn : Turn
  check_turn : Request → Turn
  acknowledge_turn : Method → Text → Turn
  threshold_turn : Method → Option (List (Text × Float64)) → Turn

-- What `main` does not know: the environment, the marshalled texts, uint64 conversions that are out of
-- range, the regular expressions, the reading of timestamps, the files that exist and the flag
-- `--services`.
pub record Surroundings : Type 0 where
  pub env : Env
  pub encode : Payload → Option Text
  pub wild : ℕ → ℕ
  pub matchers : Matchers
  pub time : Text → Option ℕ
  pub exists : Text → Bool
  pub services : List Text

abbrev pub with_app : Server → App → Server
with_app s a = record s { app = a }

unfoldable pub take_turn : Surroundings → Turn → Server → Option Server
take_turn x (fast_turn r) s = fast_tick x.env x.encode x.wild r s
take_turn x (slow_turn r) s = some (slow_tick x.env x.encode x.matchers x.time r s)
take_turn x purge_turn s = some (purge_tick x.env s)
take_turn x relay_turn s = some (relay_result x.encode s)
take_turn x restart_turn s =
    start_program x.env x.exists x.services s.app.world.calls s.app.world.reads
      (some s.app.world.tables)
take_turn x (check_turn r) s = some (with_app s (serve x.env r s.app))
take_turn x (acknowledge_turn m id) s =
    some (with_app s (handle_acknowledge_alert x.env m id s.app).1)
take_turn x (threshold_turn m body) s = some (with_app s (handle_thresholds x.env m body s.app).1)

abbrev pub continue : (Server → Option Server) → Option Server → Option Server
continue f none = none
continue f (some s) = f s

-- A panic of a turn ends the program.
unfoldable pub run_turns : Surroundings → List Turn → Server → Option Server
run_turns x [] s = some s
run_turns x (t ∷ ts) s = continue (run_turns x ts) (take_turn x t s)
