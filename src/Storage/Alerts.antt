-- ===== src/Storage/Alerts.antt =====
-- internal/storage/sqlite.go, "Alerts": the statements on the table alerts.
use monitoring.Base.{
  ◌==◌, if◌then◌else◌, is_some, sort_desc, take, keep, ℕ, suc, Bool, true, false, not, none, some,
  List, ◌∷◌, map,
}
use monitoring.Storage.Schema.{Alert}
use monitoring.Storage.Session.{ok, Env, Action, exec}

-- `INSERT INTO alerts(kind,message,value,threshold,fired_at)`: the other columns take defaults.
unfoldable pub insert_alert : Env → Alert → Action ℕ
insert_alert env a = exec env (λ t. ok (
  t.next_alert,
  record t {
    alerts = record a { id = t.next_alert; resolved_at = none; acknowledged = false } ∷ t.alerts;
    next_alert = suc t.next_alert;
  },
))

abbrev pub mark_resolved : ℕ → ℕ → Alert → Alert
mark_resolved id time a = if a.id == id then record a { resolved_at = some time } else a

unfoldable pub resolve_alert : Env → ℕ → ℕ → Action (Unit {0})
resolve_alert env id time =
    exec env (λ t. ok (tt, record t { alerts = map (mark_resolved id time) t.alerts }))

abbrev pub mark_acknowledged : ℕ → Alert → Alert
mark_acknowledged id a = if a.id == id then record a { acknowledged = true } else a

unfoldable pub acknowledge_alert : Env → ℕ → Action (Unit {0})
acknowledge_alert env id =
    exec env (λ t. ok (tt, record t { alerts = map (mark_acknowledged id) t.alerts }))

-- `WHERE resolved_at IS NULL`
abbrev pub is_open : Alert → Bool
is_open a = not (is_some a.resolved_at)

-- `scanAlerts`: the queries do not select resolved_at, so the struct keeps its zero value.
abbrev pub scan_alerts : List Alert → List Alert
scan_alerts = map (λ (a : Alert). record a { resolved_at = none })

abbrev pub by_fired_at : Alert → ℕ
by_fired_at a = a.fired_at

unfoldable pub active_alerts : Env → Action (List Alert)
active_alerts env =
    exec env (λ t. ok (scan_alerts (sort_desc by_fired_at (keep is_open t.alerts)), t))

unfoldable pub recent_alerts : Env → ℕ → Action (List Alert)
recent_alerts env limit =
    exec env (λ t. ok (scan_alerts (take limit (sort_desc by_fired_at t.alerts)), t))
