-- ===== src/Http/Latest.antt =====
-- internal/http/handlers.go: the cache of the latest snapshots, which the collector fills and four
-- handlers read. A snapshot's own fields play no part, so each kind of snapshot is a parameter.
use monitoring.Base.{ℕ, ◌≡◌, refl, ap, ◌∙◌, Option, none, some, List, [], ◌∷◌, map}
use monitoring.Http.Messages.{Method, get_method}

module _ (System AppMetrics Network Security Tunnel Services : Type 0) where
  -- `LatestData`: a pointer that is nil is none.
  pub record Latest : Type 0 where
    pub system : Option System
    pub app : Option AppMetrics
    pub network : Option Network
    pub security : Option Security
    pub tunnel : Option Tunnel
    pub services : Option Services

  pub data LatestBody : Type 0 where
    metrics : Option System → Option AppMetrics → Option Network → LatestBody
    services_body : Option Services → LatestBody
    security_body : Option Security → LatestBody
    tunnel_body : Option Tunnel → LatestBody
    refused : LatestBody

  -- `if d.System != nil { h.latest.System = d.System }`, and so on.
  abbrev pub or_latest : {A : Type 0} → Option A → Option A → Option A
  or_latest none old = old
  or_latest (some v) old = some v

  unfoldable pub update_latest : Latest → Latest → Latest
  update_latest d latest = record {
    system = or_latest d.system latest.system;
    app = or_latest d.app latest.app;
    network = or_latest d.network latest.network;
    security = or_latest d.security latest.security;
    tunnel = or_latest d.tunnel latest.tunnel;
    services = or_latest d.services latest.services;
  }

  unfoldable pub handle_metrics : Method → Latest → ℕ × LatestBody
  handle_metrics get_method d = (200, metrics d.system d.app d.network)
  handle_metrics _ d = (405, refused)

  unfoldable pub handle_services : Method → Latest → ℕ × LatestBody
  handle_services get_method d = (200, services_body d.services)
  handle_services _ d = (405, refused)

  unfoldable pub handle_security : Method → Latest → ℕ × LatestBody
  handle_security get_method d = (200, security_body d.security)
  handle_security _ d = (405, refused)

  unfoldable pub handle_tunnel : Method → Latest → ℕ × LatestBody
  handle_tunnel get_method d = (200, tunnel_body d.tunnel)
  handle_tunnel _ d = (405, refused)

  -- The ticks of `runCollector`: the fast one leaves two fields nil, the slow one the other four.
  pub data Tick : Type 0 where
    fast : Option System → Option AppMetrics → Option Network → Option Tunnel → Tick
    slow : Option Security → Option Services → Tick

  abbrev pub data_of : Tick → Latest
  data_of (fast s a n t) = record {
    system = s;
    app = a;
    network = n;
    security = none;
    tunnel = t;
    services = none;
  }
  data_of (slow s v) = record {
    system = none;
    app = none;
    network = none;
    security = s;
    tunnel = none;
    services = v;
  }

  unfoldable pub collect : List Tick → Latest → Latest
  collect [] latest = latest
  collect (t ∷ ts) latest = collect ts (update_latest (data_of t) latest)

  -- The last of the values that are not nil, or what was there before them.
  unfoldable pub newest : {A : Type 0} → List (Option A) → Option A → Option A
  newest [] old = old
  newest (none ∷ xs) old = newest xs old
  newest (some v ∷ xs) old = newest xs (some v)

  newest-or_latest :
      {A : Type 0} (x : Option A) (xs : List (Option A)) (old : Option A)
      → newest xs (or_latest x old) ≡ newest (x ∷ xs) old
  unfolding newest
  newest-or_latest none xs old = refl
  newest-or_latest (some v) xs old = refl

  collect-field :
      {A : Type 0} (field : Latest → Option A)
      → ((d l : Latest) → field (update_latest d l) ≡ or_latest (field d) (field l))
      → (ts : List Tick) (l : Latest)
      → field (collect ts l) ≡ newest (map (λ t. field (data_of t)) ts) (field l)
  unfolding collect newest
  collect-field field law [] l = refl
  collect-field field law (t ∷ ts) l =
      collect-field field law ts (update_latest (data_of t) l)
      ∙ ap (newest (map (λ t. field (data_of t)) ts)) (law (data_of t) l)
      ∙ newest-or_latest (field (data_of t)) (map (λ t. field (data_of t)) ts) (field l)

  -- After any sequence of fast and slow ticks the four handlers that read the cache answer, for
  -- each kind of snapshot, the last one that was not nil, or what the cache held before.
  pub collect-newest :
      (ts : List Tick) (l : Latest)
      → let d = collect ts l in
        (handle_metrics get_method d ≡ (
          200,
          metrics
              (newest (map (λ t. (data_of t).system) ts) l.system)
              (newest (map (λ t. (data_of t).app) ts) l.app)
              (newest (map (λ t. (data_of t).network) ts) l.network),
        ))
        × (handle_services get_method d
            ≡ (200, services_body (newest (map (λ t. (data_of t).services) ts) l.services)))
        × (handle_security get_method d
            ≡ (200, security_body (newest (map (λ t. (data_of t).security) ts) l.security)))
        × (handle_tunnel get_method d
            ≡ (200, tunnel_body (newest (map (λ t. (data_of t).tunnel) ts) l.tunnel)))
  unfolding update_latest handle_metrics handle_services handle_security handle_tunnel
  collect-newest ts l =
      let sys = collect-field (λ d. d.system) (λ d l. refl) ts l in
      let app = collect-field (λ d. d.app) (λ d l. refl) ts l in
      let net = collect-field (λ d. d.network) (λ d l. refl) ts l in
      (
        rw (sys, app, net) refl,
        rw (collect-field (λ d. d.services) (λ d l. refl) ts l) refl,
        rw (collect-field (λ d. d.security) (λ d l. refl) ts l) refl,
        rw (collect-field (λ d. d.tunnel) (λ d l. refl) ts l) refl,
      )
