-- ===== src/Alerts/Engine.antt =====
-- internal/alerts/alerts.go: the engine, its thresholds and the alerts that it holds to be active.
use monitoring.Base.{
  if◌then◌else◌, Float64, of_nat, leb_float, decimal, lookup, insert, delete, Text, bytes,
  text_discrete, ℕ, suc, Bool, false, not, Option, none, some, List, [], ◌∷◌, ◌++◌, map,
}
use monitoring.Storage.{
  Message, cpu_usage, ram_usage, swap_usage, disk_usage, url_is_down, Alert, Error, Result, ok, err,
  Env, World, insert_alert, resolve_alert, active_alerts, get_thresholds, set_threshold,
}

pub record DiskAlert : Type 0 where
  pub mountpoint : Text
  pub percent : Float64

pub record UrlAlert : Type 0 where
  pub id : ℕ
  pub url : Text
  pub label : Text
  pub up : Bool

pub record AllMetrics : Type 0 where
  pub cpu_percent : Float64
  pub ram_percent : Float64
  pub swap_percent : Float64
  pub disks : List DiskAlert
  pub url_stats : List UrlAlert

-- The maps `thresholds` and `activeAlerts` (kind to alert id).
pub record Engine : Type 0 where
  pub thresholds : List (Text × Float64)
  pub active : List (Text × ℕ)

unfoldable pub new_engine : Engine
new_engine = record { thresholds = []; active = [] }

-- `e.thresholds[key]`, zero if the key is missing
abbrev pub threshold_of : List (Text × Float64) → Text → Float64
threshold_of m key = elim (lookup text_discrete key m) [ none ↦ of_nat 0 | some v ↦ v ]

-- `Threshold`
unfoldable pub threshold : Engine → Text → Float64 → Float64
threshold e key default = elim (lookup text_discrete key e.thresholds) [
  | some v ↦ v
  | none ↦ default
]

-- The local type `check` of `Evaluate`.
pub record Check : Type 0 where
  pub kind : Text
  pub value : Float64
  pub threshold : Float64
  pub msg : Message

abbrev pub disk_kind : Text → Text
disk_kind mountpoint = bytes "disk_pct:" ++ mountpoint

abbrev pub url_kind : ℕ → Text
url_kind id = bytes "url_down:" ++ decimal id

unfoldable pub disk_check : Float64 → DiskAlert → Check
disk_check limit d = record {
  kind = disk_kind d.mountpoint;
  value = d.percent;
  threshold = limit;
  msg = disk_usage d.mountpoint d.percent limit;
}

abbrev pub or_else : Text → Text → Text
or_else [] b = b
or_else (c ∷ s) b = c ∷ s

unfoldable pub url_check : UrlAlert → Check
url_check u = record {
  kind = url_kind u.id;
  value = if not u.up then of_nat 1 else of_nat 0;
  threshold = of_nat 1;
  msg = url_is_down (or_else u.label u.url);
}

abbrev pub gauge_check : Engine → Text → Float64 → (Float64 → Float64 → Message) → Check
gauge_check e key value msg = record {
  kind = key;
  value = value;
  threshold = threshold_of e.thresholds key;
  msg = msg value (threshold_of e.thresholds key);
}

-- The slice `checks` when the loop over it begins.
unfoldable pub checks : Engine → AllMetrics → List Check
checks e m =
    gauge_check e (bytes "cpu_pct") m.cpu_percent cpu_usage
    ∷ gauge_check e (bytes "ram_pct") m.ram_percent ram_usage
    ∷ gauge_check e (bytes "swap_pct") m.swap_percent swap_usage
    ∷ (map (disk_check (threshold_of e.thresholds (bytes "disk_pct"))) m.disks
        ++ map url_check m.url_stats)

-- What the loop of `Evaluate` changes: the map `activeAlerts`, the slice `fired`, the database.
pub record Progress : Type 0 where
  pub active : List (Text × ℕ)
  pub fired : List Alert
  pub world : World

abbrev pub after_insert : Check → Alert → Progress → Result ℕ × World → Progress × Option Error
after_insert c a p (ok id, w) = (
  record p {
    active = insert text_discrete c.kind id p.active;
    fired = p.fired ++ record a { id = id } ∷ [];
    world = w;
  },
  none,
)
after_insert c a p (err e, w) = (record p { world = w }, some e)

abbrev pub alert_at : Check → ℕ → Alert
alert_at c time = record {
  id = 0;
  kind = c.kind;
  message = c.msg;
  value = c.value;
  threshold = c.threshold;
  fired_at = time;
  resolved_at = none;
  acknowledged = false;
}

abbrev pub tick : World → World
tick w = record w { reads = suc w.reads }

unfoldable pub fire : Env → Check → Progress → Progress × Option Error
fire env c p =
    let a = alert_at c (env.clock p.world.reads) in
    after_insert c a p (insert_alert env a (tick p.world))

-- The error of `ResolveAlert` is dropped.
unfoldable pub resolve : Env → Check → ℕ → Progress → Progress
resolve env c id p = record p {
  active = delete text_discrete c.kind p.active;
  world = (resolve_alert env id (env.clock p.world.reads) (tick p.world)).1;
}

-- One round of the loop.
unfoldable pub evaluate_check : Env → Check → Progress → Progress × Option Error
unfolding fire resolve
evaluate_check env c p =
    if leb_float c.threshold (of_nat 0)
    then (p, none)
    else if leb_float c.threshold c.value
    then (elim (lookup text_discrete c.kind p.active) [ some id ↦ (p, none) | none ↦ fire env c p ])
    else (elim (lookup text_discrete c.kind p.active) [
      | some id ↦ (resolve env c id p, none)
      | none ↦ (p, none)
    ])

unfoldable pub evaluate_checks : Env → List Check → Progress → Progress × Option Error
evaluate_checks env [] p = (p, none)
evaluate_checks env (c ∷ cs) p =
    let (p', e) = evaluate_check env c p in
    elim e [ none ↦ evaluate_checks env cs p' | some e ↦ (p', some e) ]

unfoldable pub evaluate : Env → Engine → AllMetrics → World → Progress × Option Error
unfolding evaluate_checks
evaluate env e m w =
    evaluate_checks env (checks e m) (record { active = e.active; fired = []; world = w })

-- The engine that `Evaluate` leaves.
abbrev pub evaluated : Engine → Progress × Option Error → Engine
evaluated e (p, _) = record e { active = p.active }

-- The loop `for _, a := range active { e.activeAlerts[a.Kind] = a.ID }`.
unfoldable pub restore : List Alert → List (Text × ℕ) → List (Text × ℕ)
restore [] m = m
restore (a ∷ rest) m = restore rest (insert text_discrete a.kind a.id m)

abbrev pub after_active : Engine → Result (List Alert) × World → Engine × Result (Unit {0}) × World
after_active e (ok found, w) = (record e { active = restore found e.active }, ok tt, w)
after_active e (err x, w) = (e, err x, w)

abbrev pub after_thresholds :
    Env → Engine → Result (List (Text × Float64)) × World → Engine × Result (Unit {0}) × World
after_thresholds env e (ok t, w) =
    let e' = record e { thresholds = t } in after_active e' (active_alerts env w)
after_thresholds env e (err x, w) = (e, err x, w)

unfoldable pub load_thresholds : Env → Engine → World → Engine × Result (Unit {0}) × World
load_thresholds env e w = after_thresholds env e (get_thresholds env w)

abbrev pub after_set :
    Engine → Text → Float64 → Result (Unit {0}) × World → Engine × Result (Unit {0}) × World
after_set e key value (ok _, w) =
    (record e { thresholds = insert text_discrete key value e.thresholds }, ok tt, w)
after_set e key value (err x, w) = (e, err x, w)

unfoldable pub update_threshold :
    Env → Engine → Text → Float64 → World → Engine × Result (Unit {0}) × World
update_threshold env e key value w = after_set e key value (set_threshold env key value w)
