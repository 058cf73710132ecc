-- ===== src/Server/Keeping.antt =====
-- The turns of cmd/server/main.go beside two invariants: of the engine against the table alerts, and of
-- the checker against the table url_checks.
use monitoring.Base.{
  Option-cases, Float64, parse_int, Text, ℤ, ℕ, refl, inl, inr, Option, none, some, List, [], ◌∷◌,
}
use monitoring.Storage.{
  Alert, Tables, Result, ok, err, Env, World, IsReliable, set_threshold, purge, TablesAreUnique,
}
use monitoring.Alerts.Engine.{after_set, update_threshold}
use monitoring.Alerts.Sync.{InSync, InSync-same}
use monitoring.Alerts.Evaluate.{evaluate-InSync}
use monitoring.Alerts.History.{acknowledges, purges, step, step-InSync}
use monitoring.Metrics.Readings.{SystemSnapshot}
use monitoring.UrlCheck.Checker.{Checker}
use monitoring.UrlCheck.Numbers.{IsKept}
use monitoring.Sse.Broker.{Broker}
use monitoring.Http.Messages.{
  Method, get_method, post_method, put_method, delete_method, other_method, row_id,
}
use monitoring.Http.Handlers.{
  App, after_acknowledge, acknowledge_id, handle_acknowledge_alert, after_update_threshold,
  set_thresholds, put_thresholds, handle_thresholds,
}
use monitoring.Http.History.{Request, serve, serve-IsKept}
use monitoring.Server.Collector.{metrics_of, evaluate_alerts}
use monitoring.Server.Frames.{SameAlerts, SameChecks, SameBoth}
use monitoring.Server.Writes.{
  evaluate-SameChecks, acknowledge_alert-SameChecks, set_threshold-Same, purge-SameChecks,
}
use monitoring.Server.Requests.{serve-KeepsAlerts}

-- Every kind has at most one open alert, and the engine's map holds just those; the checker is tidy,
-- and its ids and the rows' were given out by the database; no two rows of url_checks share an id or
-- a url.
pub record IsSound (a : App) : Type 0 where
  pub sync : InSync a.engine.active a.world.tables
  pub kept : IsKept a.checker a.world.tables
  pub unique : TablesAreUnique a.world.tables

pub InSync-Same :
    {active : List (Text × ℕ)} {t t' : Tables}
    → SameAlerts t t'
    → InSync active t
    → InSync active t'
InSync-Same {active} {t} {t'} same sync = InSync-same sync active t' same.rows same.next (λ k. refl)

pub IsKept-Same : {c : Checker} {t t' : Tables} → SameChecks t t' → IsKept c t → IsKept c t'
IsKept-Same {c} {t} {t'} same k = record {
  tidy = k.tidy;
  ids = rw same.next k.ids;
  rows = rw (same.rows, same.next) k.rows;
}

unique_same : {t t' : Tables} → SameChecks t t' → TablesAreUnique t → TablesAreUnique t'
unique_same {t} {t'} same h = rw (same.rows, same.next) h

pub IsSound-world :
    (a : App) (w : World) → SameBoth a.world w → IsSound a → IsSound (record a { world = w })
IsSound-world a w same h = record {
  sync = InSync-Same same.0 h.sync;
  kept = IsKept-Same same.1 h.kept;
  unique = unique_same same.1 h.unique;
}

module _ (env : Env) (reliable : IsReliable env) where
  pub evaluate_alerts-IsSound :
      (encode : Alert → Option Text) (sys : SystemSnapshot) (a : App) (b : Broker)
      → IsSound a
      → IsSound (evaluate_alerts env encode (some sys) a b).0
  unfolding evaluate_alerts
  evaluate_alerts-IsSound encode sys a b h =
      let m = metrics_of sys a.checker in
      record {
        sync = evaluate-InSync env reliable a.engine m a.world h.sync;
        kept = IsKept-Same (evaluate-SameChecks env a.engine m a.world) h.kept;
        unique = unique_same (evaluate-SameChecks env a.engine m a.world) h.unique;
      }

  after_acknowledge-IsSound :
      (a : App) (x : Result (Unit {0}) × World)
      → InSync a.engine.active x.1.tables
      → SameChecks a.world.tables x.1.tables
      → IsSound a
      → IsSound (after_acknowledge a x).1
  after_acknowledge-IsSound a (ok u, w) sync same h = record {
    sync = sync;
    kept = IsKept-Same same h.kept;
    unique = unique_same same h.unique;
  }
  after_acknowledge-IsSound a (err e, w) sync same h = record {
    sync = sync;
    kept = IsKept-Same same h.kept;
    unique = unique_same same h.unique;
  }

  acknowledge_id-IsSound :
      (id : Option ℤ) (a : App) → IsSound a → IsSound (acknowledge_id env id a).1
  unfolding step
  acknowledge_id-IsSound none a h = h
  acknowledge_id-IsSound (some id) a h =
      after_acknowledge-IsSound a _
        (step-InSync env reliable (acknowledges (row_id id)) a.engine a.world h.sync)
        (acknowledge_alert-SameChecks env (row_id id) a.world) h

  pub acknowledge-IsSound :
      (m : Method) (id : Text) (a : App)
      → IsSound a
      → IsSound (handle_acknowledge_alert env m id a).1
  unfolding handle_acknowledge_alert
  acknowledge-IsSound get_method id a h = h
  acknowledge-IsSound post_method id a h = acknowledge_id-IsSound (parse_int id) a h
  acknowledge-IsSound put_method id a h = h
  acknowledge-IsSound delete_method id a h = h
  acknowledge-IsSound other_method id a h = h

  pub purge-IsSound : (a : App) → IsSound a → IsSound (record a { world = (purge env a.world).1 })
  unfolding step
  purge-IsSound a h = record {
    sync = step-InSync env reliable purges a.engine a.world h.sync;
    kept = IsKept-Same (purge-SameChecks env a.world) h.kept;
    unique = unique_same (purge-SameChecks env a.world) h.unique;
  }

  pub serve-IsSound : (r : Request) (a : App) → IsSound a → IsSound (serve env r a)
  serve-IsSound r a h =
      let k = serve-KeepsAlerts env r a in
      record {
        sync = rw k.engine (InSync-Same k.same.alerts h.sync);
        kept = serve-IsKept env r a h.kept;
        unique = k.same.unique h.unique;
      }

  after_set-IsSound :
      (k : Text) (v : Float64) (a : App) (x : Result (Unit {0}) × World)
      → SameBoth a.world x.1
      → IsSound a
      → IsSound (after_update_threshold a (after_set a.engine k v x)).1
  after_set-IsSound k v a (ok u, w) same h = record {
    sync = InSync-Same same.0 h.sync;
    kept = IsKept-Same same.1 h.kept;
    unique = unique_same same.1 h.unique;
  }
  after_set-IsSound k v a (err e, w) same h = record {
    sync = InSync-Same same.0 h.sync;
    kept = IsKept-Same same.1 h.kept;
    unique = unique_same same.1 h.unique;
  }

  update_threshold-IsSound :
      (k : Text) (v : Float64) (a : App)
      → IsSound a
      → IsSound (after_update_threshold a (update_threshold env a.engine k v a.world)).1
  unfolding update_threshold
  update_threshold-IsSound k v a h =
      after_set-IsSound k v a (set_threshold env k v a.world) (set_threshold-Same env k v a.world) h

  set_thresholds-IsSound :
      (m : List (Text × Float64)) (a : App) → IsSound a → IsSound (set_thresholds env m a).1
  unfolding set_thresholds
  set_thresholds-IsSound [] a h = h
  set_thresholds-IsSound ((k, v) ∷ rest) a h =
      let (e, b) = after_update_threshold a (update_threshold env a.engine k v a.world) in
      let first = update_threshold-IsSound k v a h in
      elim (Option-cases e) [
        | inl f ↦ rw (f, set_thresholds) (set_thresholds-IsSound rest b first)
        | inr (x, f) ↦ rw (f, set_thresholds) first
      ]

  put_thresholds-IsSound :
      (body : Option (List (Text × Float64))) (a : App)
      → IsSound a
      → IsSound (put_thresholds env body a).1
  put_thresholds-IsSound none a h = h
  put_thresholds-IsSound (some m) a h = set_thresholds-IsSound m a h

  pub thresholds-IsSound :
      (m : Method) (body : Option (List (Text × Float64))) (a : App)
      → IsSound a
      → IsSound (handle_thresholds env m body a).1
  unfolding handle_thresholds
  thresholds-IsSound get_method body a h = h
  thresholds-IsSound post_method body a h = h
  thresholds-IsSound put_method body a h = put_thresholds-IsSound body a h
  thresholds-IsSound delete_method body a h = h
  thresholds-IsSound other_method body a h = h
