-- ===== src/Alerts/History.antt =====
-- Every history of what the program does to the alerts: runs of `Evaluate`, acknowledgements,
-- purges, threshold updates and restarts, over internal/alerts and internal/storage.
use monitoring.Base.{Float64, keep, Text, ℕ, suc, ◌≡◌, refl, ap, not, List, [], ◌∷◌, map, arith}
use monitoring.Storage.{
  ok, Env, World, IsReliable, mark_acknowledged, acknowledge_alert, set_threshold, is_stale, purge,
}
use monitoring.Alerts.Engine.{
  AllMetrics, Engine, new_engine, evaluate, load_thresholds, update_threshold,
}
use monitoring.Alerts.Sync.{InSync, InSync-acknowledge, InSync-purge, InSync-same}
use monitoring.Alerts.Evaluate.{evaluate-InSync}
use monitoring.Alerts.Restart.{restart}

pub data Op : Type 0 where
  evaluates : AllMetrics → Op
  acknowledges : ℕ → Op
  purges : Op
  updates : Text → Float64 → Op
  restarts : Op

-- The engine and the world after an operation, whose answer is not looked at.
unfoldable pub step : Env → Op → Engine → World → Engine × World
step env (evaluates m) e w =
    let (p, _) = evaluate env e m w in (record e { active = p.active }, p.world)
step env (acknowledges id) e w = (e, (acknowledge_alert env id w).1)
step env purges e w = (e, (purge env w).1)
step env (updates key value) e w = let (e', _, w') = update_threshold env e key value w in (e', w')
step env restarts e w = let (e', _, w') = load_thresholds env new_engine w in (e', w')

unfoldable pub run : Env → List Op → Engine → World → Engine × World
run env [] e w = (e, w)
run env (o ∷ os) e w = let (e', w') = step env o e w in run env os e' w'

module _ (env : Env) (reliable : IsReliable env) where
  acknowledge_alert-eq :
      (id : ℕ) (w : World)
      → acknowledge_alert env id w ≡ (
        ok tt,
        record w {
          tables = record w.tables { alerts = map (mark_acknowledged id) w.tables.alerts };
          calls = suc w.calls;
        },
      )
  unfolding acknowledge_alert
  acknowledge_alert-eq id w = ground (arith, reliable w.calls)

  purge-eq :
      (w : World)
      → ((purge env w).1.tables.alerts
          ≡ keep (λ a. not (is_stale (env.clock w.reads) a)) w.tables.alerts)
        × ((purge env w).1.tables.next_alert ≡ w.tables.next_alert)
  unfolding purge
  purge-eq w = ground (
    arith,
    reliable w.calls,
    reliable (suc w.calls),
    reliable (suc (suc w.calls)),
    reliable (suc (suc (suc w.calls))),
  )

  update_threshold-eq :
      (e : Engine) (key : Text) (value : Float64) (w : World)
      → let (e', _, w') = update_threshold env e key value w in
        (e'.active ≡ e.active)
        × (w'.tables.alerts ≡ w.tables.alerts)
        × (w'.tables.next_alert ≡ w.tables.next_alert)
  unfolding update_threshold set_threshold
  update_threshold-eq e key value w = ground (arith, reliable w.calls)

  pub step-InSync :
      (o : Op) (e : Engine) (w : World)
      → InSync e.active w.tables
      → let (e', w') = step env o e w in InSync e'.active w'.tables
  unfolding step
  step-InSync (evaluates m) e w sync = evaluate-InSync env reliable e m w sync
  step-InSync (acknowledges id) e w sync =
      rw (acknowledge_alert-eq id w) (InSync-acknowledge sync id)
  step-InSync purges e w sync =
      let (rows, next) = purge-eq w in
      InSync-same (InSync-purge sync (env.clock w.reads)) e.active (purge env w).1.tables rows next
        (λ k. refl)
  step-InSync (updates key value) e w sync =
      let (e', _, w') = update_threshold env e key value w in
      let (held, rows, next) = update_threshold-eq e key value w in
      InSync-same sync e'.active w'.tables rows next (λ k. rw held)
  step-InSync restarts e w sync =
      let (e', _, w') = load_thresholds env new_engine w in
      let (_, _, held, same) = restart env reliable e w sync in
      InSync-same sync e'.active w'.tables (ap (λ t. t.alerts) same) (ap (λ t. t.next_alert) same)
        held

  -- Take a database whose statements all succeed, and any sequence of runs of `Evaluate`,
  -- acknowledgements, purges, threshold updates and restarts. If at first every kind has at most
  -- one open alert in the table, the map `activeAlerts` holds just those, and the ids lie below
  -- the next one, then so it is at the end.
  pub run-InSync :
      (os : List Op) (e : Engine) (w : World)
      → InSync e.active w.tables
      → let (e', w') = run env os e w in InSync e'.active w'.tables
  unfolding run
  run-InSync [] e w sync = sync
  run-InSync (o ∷ os) e w sync =
      let (e', w') = step env o e w in run-InSync os e' w' (step-InSync o e w sync)
