-- ===== src/Server/Loops.antt =====
-- cmd/server/main.go: one round of each background loop, over the state that `main` makes: both ticks of
-- `runCollector`, `runPurge` and `relayURLResults`. What gopsutil and the commands answer is an
-- argument, and so is what `json.Marshal` makes of a value, none where it fails.
use monitoring.Base.{Text, bytes, ℕ, Bool, Option, none, some, List, [], ◌∷◌}
use monitoring.Storage.{Alert, Env, World, purge}
use monitoring.Metrics.Network.{Connection, NetworkSnapshot, collect_network}
use monitoring.Metrics.Readings.{SystemSnapshot, Readings}
use monitoring.Metrics
use monitoring.Metrics.System.{collect_system}
use monitoring.Metrics.App.{AppSnapshot, AppReadings, collect_app}
use monitoring.Tunnel
use monitoring.Tunnel.Detector.{Process, Status, Detector}
use monitoring.Security.AuthLog.{Matchers, Parser, parse}
use monitoring.Security.Snapshot.{Snapshot, snapshot}
use monitoring.Services.Monitor.{ServicesSnapshot, services_snapshot}
use monitoring.UrlCheck.Checker.{CheckResult}
use monitoring.Sse.Broker.{Broker}
use monitoring.Http.Handlers.{App}
use monitoring.Http.Latest.{Latest, update_latest, Tick, fast, slow, data_of}
use monitoring.Server.Collector.{broadcast_json, evaluate_alerts}

-- The snapshots that `Handler.latest` holds.
abbrev pub Cache : Type 0
Cache = Latest SystemSnapshot AppSnapshot NetworkSnapshot Snapshot Status ServicesSnapshot

abbrev pub CacheTick : Type 0
CacheTick = Tick SystemSnapshot AppSnapshot NetworkSnapshot Snapshot Status ServicesSnapshot

abbrev pub update_cache : CacheTick → Cache → Cache
update_cache t l =
    update_latest SystemSnapshot AppSnapshot NetworkSnapshot Snapshot Status ServicesSnapshot
      (data_of SystemSnapshot AppSnapshot NetworkSnapshot Snapshot Status ServicesSnapshot t) l

-- The variables of `main`.
pub record Server : Type 0 where
  pub app : App
  pub broker : Broker
  pub collector : Metrics.System.Collector
  pub detector : Detector
  pub parser : Parser
  pub services : List Text
  pub latest : Cache

-- What is marshalled.
pub data Payload : Type 0 where
  alert_payload : Alert → Payload
  metrics_payload : SystemSnapshot → AppSnapshot → NetworkSnapshot → Payload
  tunnel_payload : Status → Payload
  services_payload : ServicesSnapshot → Payload
  url_payload : CheckResult → Payload

pub record FastReadings : Type 0 where
  pub system : Readings
  pub app : AppReadings
  pub connections : Option (List Connection)
  pub processes : Option (List Process)
  pub version : Option Text

pub record SlowReadings : Type 0 where
  pub log : Option Text
  pub updates : Option (List Text)
  pub at : ℕ
  pub available : Bool
  pub shown : Text → Option (List Text)

-- The events of a fast tick once the alerts are evaluated.
abbrev pub broadcast_metrics :
    (Payload → Option Text)
    → SystemSnapshot
    → AppSnapshot
    → NetworkSnapshot
    → Status
    → Broker
    → Broker
broadcast_metrics encode sys app net tun b =
    broadcast_json (bytes "tunnel") (encode (tunnel_payload tun))
      (broadcast_json (bytes "metrics") (encode (metrics_payload sys app net)) b)

module _ (env : Env) (encode : Payload → Option Text) where
  -- The tick after `CollectNetwork`, which panics where its answer is none.
  abbrev pub after_network :
      Server
      → SystemSnapshot × Metrics.System.Collector
      → AppSnapshot
      → Status × Detector × World
      → NetworkSnapshot
      → Server
  after_network s (sys, collector) app (tun, detector, w) net =
      let (a, b) =
        evaluate_alerts env (λ x. encode (alert_payload x)) (some sys) (record s.app { world = w })
          s.broker in
      record s {
        app = a;
        broker = broadcast_metrics encode sys app net tun b;
        collector = collector;
        detector = detector;
        latest = update_cache (fast (some sys) (some app) (some net) (some tun)) s.latest;
      }

  unfoldable pub fast_tick : (ℕ → ℕ) → FastReadings → Server → Option Server
  fast_tick wild r s =
      let tun = Tunnel.Detector.collect env r.processes r.version s.detector s.app.world in
      elim (collect_network r.connections) [
        | none ↦ none
        | some net ↦
            some (
              after_network s (collect_system wild r.system s.collector) (collect_app r.app) tun
                net)
      ]

  -- The error of `Parse` is dropped, and what `Snapshot` has when it fails is cached all the same.
  unfoldable pub slow_tick : Matchers → (Text → Option ℕ) → SlowReadings → Server → Server
  slow_tick m time r s =
      let (parser, _, w1) = parse env m r.log s.parser s.app.world in
      let (sec, _, w2) = snapshot env r.updates parser w1 in
      let svc = services_snapshot time r.shown r.available r.at s.services in
      record s {
        app = record s.app { world = w2 };
        broker = broadcast_json (bytes "services") (encode (services_payload svc)) s.broker;
        parser = parser;
        latest = update_cache (slow (some sec) (some svc)) s.latest;
      }

unfoldable pub purge_tick : Env → Server → Server
purge_tick env s = record s { app = record s.app { world = (purge env s.app.world).1 } }

-- `relayURLResults` waits while there is no result.
abbrev pub relay : (Payload → Option Text) → List CheckResult → Server → Server
relay encode [] s = s
relay encode (r ∷ rest) s = record s {
  app = record s.app { checker = record s.app.checker { results = rest } };
  broker = broadcast_json (bytes "url_result") (encode (url_payload r)) s.broker;
}

unfoldable pub relay_result : (Payload → Option Text) → Server → Server
relay_result encode s = relay encode s.app.checker.results s
