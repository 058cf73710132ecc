-- ===== src/Server/Collector.antt =====
-- cmd/server/main.go: the alert part of the fast tick of `runCollector`. What gopsutil samples is an
-- argument, and so is what `json.Marshal` makes of an alert, none where it fails.
use monitoring.Base.{Text, bytes, Bool, true, Option, none, some, List, [], ◌∷◌, map}
use monitoring.Storage.{Alert, Env}
use monitoring.Alerts.Engine.{DiskAlert, UrlAlert, AllMetrics, evaluate}
use monitoring.Metrics.Readings.{DiskStat, SystemSnapshot}
use monitoring.UrlCheck.Checker.{CheckResult, Summary, Checker, all_summaries}
use monitoring.Sse.Broker.{Broker, publish}
use monitoring.Http.Handlers.{App}

-- `s.LastResult == nil || s.LastResult.Up`
abbrev pub counts_as_up : Option CheckResult → Bool
counts_as_up none = true
counts_as_up (some r) = r.up

unfoldable pub url_alert : Summary → UrlAlert
url_alert s = record {
  id = s.check.id;
  url = s.check.url;
  label = s.check.label;
  up = counts_as_up s.last_result;
}

abbrev pub disk_alert : DiskStat → DiskAlert
disk_alert d = record { mountpoint = d.mountpoint; percent = d.percent }

unfoldable pub metrics_of : SystemSnapshot → Checker → AllMetrics
metrics_of sys c = record {
  cpu_percent = sys.cpu_percent;
  ram_percent = sys.mem_percent;
  swap_percent = sys.swap_percent;
  disks = map disk_alert sys.disks;
  url_stats = map url_alert (all_summaries c);
}

-- `BroadcastJSON`: what cannot be marshalled is not broadcast.
abbrev pub broadcast_json : Text → Option Text → Broker → Broker
broadcast_json type none b = b
broadcast_json type (some text) b = publish (record { type = type; payload = text }) b

unfoldable pub broadcast_alerts : (Alert → Option Text) → List Alert → Broker → Broker
broadcast_alerts encode [] b = b
broadcast_alerts encode (a ∷ rest) b =
    broadcast_alerts encode rest (broadcast_json (bytes "alert") (encode a) b)

-- The error of `Evaluate` is dropped; the alerts that it fired before are broadcast all the same.
unfoldable pub evaluate_alerts :
    Env → (Alert → Option Text) → Option SystemSnapshot → App → Broker → App × Broker
unfolding metrics_of broadcast_alerts
evaluate_alerts env encode none a b = (a, b)
evaluate_alerts env encode (some sys) a b =
    let (p, _) = evaluate env a.engine (metrics_of sys a.checker) a.world in
    (
      record a { engine = record a.engine { active = p.active }; world = p.world },
      broadcast_alerts encode p.fired b,
    )
