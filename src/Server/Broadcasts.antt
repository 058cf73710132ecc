-- ===== src/Server/Broadcasts.antt =====
-- The events of a fast tick of `runCollector` in cmd/server/main.go, and what it leaves in the cache of
-- the handlers.
use mathlib.Core.List.{append_assoc, append-nil}
use monitoring.Base.{
  ltb, Bool-cases, Option-cases, length, take, length-append, take-short, Text, bytes, ℕ, ◌≤◌, ◌≡◌,
  refl, sym, ap, subst, ◌∙◌, inl, inr, Option, none, some, List, [], ◌∷◌, ◌++◌, arith,
}
use monitoring.Storage.{Alert, Env}
use monitoring.Alerts.Engine.{evaluate}
use monitoring.Metrics.Readings.{SystemSnapshot}
use monitoring.Metrics.System.{collect_system}
use monitoring.Metrics.App.{AppSnapshot, collect_app}
use monitoring.Metrics.Network.{NetworkSnapshot, collect_network}
use monitoring.Tunnel
use monitoring.Tunnel.Detector.{Status}
use monitoring.Sse.Broker.{Event, Broker, broadcast_cap, publish}
use monitoring.Http.Latest.{update_latest}
use monitoring.Server.Collector.{metrics_of, broadcast_json, broadcast_alerts, evaluate_alerts}
use monitoring.Server.Loops.{
  Server, Payload, alert_payload, metrics_payload, tunnel_payload, FastReadings, broadcast_metrics,
  after_network, fast_tick,
}
use monitoring.Server.Soundness.{HasAllPorts, collect_network-runs}

-- The events of a list of alerts.
unfoldable pub alert_events : (Alert → Option Text) → List Alert → List Event
alert_events encode [] = []
alert_events encode (a ∷ rest) = elim (encode a) [
  | none ↦ alert_events encode rest
  | some text ↦ record { type = bytes "alert"; payload = text } ∷ alert_events encode rest
]

take_front : (q r : List Event) → take (length q) (q ++ r) ≡ q
take_front [] r = refl
take_front (x ∷ q) r = ap (◌∷◌ x) (take_front q r)

take_full : (n : ℕ) (q r : List Event) → length q ≡ n → take n (q ++ r) ≡ q
take_full n q r e = subst (λ k. take k (q ++ r) ≡ q) e (take_front q r)

-- A buffer that was within its capacity takes what fits of a list of events.
take-publish :
    (evt : Event) (rest : List Event) (b : Broker)
    → length b.broadcast ≤ broadcast_cap
    → (take broadcast_cap ((publish evt b).broadcast ++ rest)
        ≡ take broadcast_cap (b.broadcast ++ evt ∷ rest))
      × (length (publish evt b).broadcast ≤ broadcast_cap)
unfolding publish
take-publish evt rest b h = elim (Bool-cases (ltb (length b.broadcast) broadcast_cap)) [
  | inl e ↦
      rw (e, publish)
        (
          ap (take broadcast_cap) (append_assoc b.broadcast (evt ∷ []) rest),
          ground (arith, length-append b.broadcast (evt ∷ [])),
        )
  | inr e ↦
      let full : length b.broadcast ≡ broadcast_cap = ground arith in
      rw (e, publish)
        (
          take_full broadcast_cap b.broadcast rest full
              ∙ sym (take_full broadcast_cap b.broadcast (evt ∷ rest) full),
          h,
        )
]

-- The event of a text, if it could be marshalled.
abbrev pub json_events : Text → Option Text → List Event
json_events type none = []
json_events type (some text) = record { type = type; payload = text } ∷ []

-- A buffer within its capacity, to which a broadcast adds some events that may be cut off.
abbrev Adds : Broker → List Event → Broker → List Event → Type 0
Adds b events b' rest =
    (take broadcast_cap (b'.broadcast ++ rest)
      ≡ take broadcast_cap (b.broadcast ++ (events ++ rest)))
    × (length b'.broadcast ≤ broadcast_cap)

broadcast_json-Adds :
    (type : Text) (text : Option Text) (rest : List Event) (b : Broker)
    → length b.broadcast ≤ broadcast_cap
    → Adds b (json_events type text) (broadcast_json type text b) rest
broadcast_json-Adds type none rest b h = (refl, h)
broadcast_json-Adds type (some text) rest b h =
    take-publish (record { type = type; payload = text }) rest b h

broadcast_alerts-Adds :
    (encode : Alert → Option Text) (fired : List Alert) (rest : List Event) (b : Broker)
    → length b.broadcast ≤ broadcast_cap
    → Adds b (alert_events encode fired) (broadcast_alerts encode fired b) rest
unfolding broadcast_alerts alert_events
broadcast_alerts-Adds encode [] rest b h = (refl, h)
broadcast_alerts-Adds encode (a ∷ fired) rest b h = elim (Option-cases (encode a)) [
  | inl e ↦ rw (e, broadcast_alerts, alert_events) (broadcast_alerts-Adds encode fired rest b h)
  | inr (text, e) ↦
      let evt : Event = record { type = bytes "alert"; payload = text } in
      let (same, room) = take-publish evt (alert_events encode fired ++ rest) b h in
      let (later, small) = broadcast_alerts-Adds encode fired rest (publish evt b) room in
      rw (e, broadcast_alerts, alert_events) (later ∙ same, small)
]

-- What a tick hands to `BroadcastJSON`, in order.
abbrev pub tick_events :
    (Payload → Option Text)
    → List Alert
    → SystemSnapshot
    → AppSnapshot
    → NetworkSnapshot
    → Status
    → List Event
tick_events encode fired sys app net tun =
    alert_events (λ x. encode (alert_payload x)) fired
    ++ (json_events (bytes "metrics") (encode (metrics_payload sys app net))
        ++ json_events (bytes "tunnel") (encode (tunnel_payload tun)))

broadcast_tick :
    (encode : Payload → Option Text) (fired : List Alert) (sys : SystemSnapshot) (app : AppSnapshot)
    (net : NetworkSnapshot) (tun : Status) (b : Broker)
    → length b.broadcast ≤ broadcast_cap
    → (broadcast_metrics encode sys app net tun
        (broadcast_alerts (λ x. encode (alert_payload x)) fired b)).broadcast
      ≡ take broadcast_cap (b.broadcast ++ tick_events encode fired sys app net tun)
broadcast_tick encode fired sys app net tun b h =
    let enc : Alert → Option Text = λ x. encode (alert_payload x) in
    let metrics = encode (metrics_payload sys app net) in
    let tunnel = encode (tunnel_payload tun) in
    let last = json_events (bytes "tunnel") tunnel in
    let (e1, h1) =
      broadcast_alerts-Adds enc fired (json_events (bytes "metrics") metrics ++ last) b h in
    let b1 = broadcast_alerts enc fired b in
    let (e2, h2) = broadcast_json-Adds (bytes "metrics") metrics last b1 h1 in
    let b2 = broadcast_json (bytes "metrics") metrics b1 in
    let (e3, h3) = broadcast_json-Adds (bytes "tunnel") tunnel [] b2 h2 in
    let b3 = broadcast_json (bytes "tunnel") tunnel b2 in
    sym (take-short broadcast_cap b3.broadcast h3)
    ∙ ap (take broadcast_cap) (sym (append-nil b3.broadcast))
    ∙ e3
    ∙ ap (λ r. take broadcast_cap (b2.broadcast ++ r)) (append-nil last)
    ∙ e2
    ∙ e1

module _ (env : Env) (encode : Payload → Option Text) (wild : ℕ → ℕ) where
  -- If the broadcast buffer holds no more than 256 events and the ports of the connections are of
  -- type uint32, then a fast tick does not panic. After it the buffer holds the first 256 of what
  -- it held, the events of the alerts that were fired in their order, also where `Evaluate` ended
  -- with an error, then that of the metrics and that of the tunnel, without those that cannot be
  -- marshalled; and the cache holds the very snapshots that were broadcast.
  pub fast_tick-broadcast :
      (r : FastReadings) (s : Server)
      → length s.broker.broadcast ≤ broadcast_cap
      → HasAllPorts r.connections
      → let sys = (collect_system wild r.system s.collector).0 in
        let app = collect_app r.app in
        let (tun, _, w) =
          Tunnel.Detector.collect env r.processes r.version s.detector s.app.world in
        let fired = (evaluate env s.app.engine (metrics_of sys s.app.checker) w).0.fired in
        (net : NetworkSnapshot) × (s' : Server) × (collect_network r.connections ≡ some net)
        × (fast_tick env encode wild r s ≡ some s')
        × (s'.broker.broadcast
            ≡ take broadcast_cap (s.broker.broadcast ++ tick_events encode fired sys app net tun))
        × (s'.latest.system ≡ some sys)
        × (s'.latest.app ≡ some app)
        × (s'.latest.network ≡ some net)
        × (s'.latest.tunnel ≡ some tun)
  unfolding fast_tick evaluate_alerts update_latest
  fast_tick-broadcast r s room ports =
      let (net, e) = collect_network-runs r.connections ports in
      (
        net,
        after_network env encode s (collect_system wild r.system s.collector) (collect_app r.app)
            (Tunnel.Detector.collect env r.processes r.version s.detector s.app.world) net,
        e,
        rw (e, fast_tick) refl,
        broadcast_tick encode _ _ _ net _ s.broker room,
        refl,
        refl,
        refl,
        refl,
      )
