-- ===== src/Alerts/Tests.antt =====
-- Runs of internal/alerts/alerts.go at concrete metrics, and the theorems about it at those.
use mathlib.Core.List.Memᴰ
use monitoring.Base.{
  ◌==◌, if◌then◌else◌, Float64, of_nat, keep, lookup, insert, Text, bytes, text_discrete, ℕ, ◌+◌,
  ◌≡◌, refl, ap, ite, Bool, true, false, none, some, [], ◌∷◌, map, arith,
}
use monitoring.Storage.{
  cpu_usage, Alert, default_thresholds, new_tables, Error, failure, ok, err, Env, World, IsReliable,
  insert_alert,
}
use monitoring.Alerts.Engine.{
  UrlAlert, AllMetrics, Engine, new_engine, threshold, Check, disk_kind, url_kind, disk_check,
  url_check, gauge_check, checks, Progress, alert_at, fire, resolve, evaluate_check,
  evaluate_checks, evaluate, load_thresholds, update_threshold,
}
use monitoring.Alerts.Sync.{open_ids, InSync}
use monitoring.Alerts.Rounds.{level, is_active}
use monitoring.Alerts.Faults.{StopsAt, evaluate-StopsAt, resolve_fault}
use monitoring.Alerts.Evaluate.{expected, evaluate-expected}
use monitoring.Alerts.Kinds.{HasKeys}
use monitoring.Alerts.Levels.{evaluate-level, evaluate_unchecked, evaluate_again}
use monitoring.Alerts.Fired.{report, rises, evaluate-fired}
use monitoring.Alerts.Restart.{restart, ThresholdsAgree, update_threshold-agree}
use monitoring.Alerts.History.{evaluates, acknowledges, purges, restarts, run, run-InSync}

-- No statement fails, and the clock goes on by a second at each reading.
abbrev calm_env : Env
calm_env = record { faults = λ n. none; clock = λ n. 1000 + n; percent = λ a b. of_nat 100 }

calm_env-IsReliable : IsReliable calm_env
calm_env-IsReliable n = refl

-- Every statement fails.
abbrev failing_env : Env
failing_env = record calm_env { faults = λ n. some (failure (bytes "disk full")) }

abbrev empty_world : World
empty_world = record { tables = new_tables; calls = 0; reads = 0 }

abbrev loaded_engine : Engine
loaded_engine = record { thresholds = default_thresholds; active = [] }

abbrev metrics_of : ℕ → Bool → AllMetrics
metrics_of cpu up = record {
  cpu_percent = of_nat cpu;
  ram_percent = of_nat 40;
  swap_percent = of_nat 0;
  disks = record { mountpoint = bytes "/"; percent = of_nat 91 } ∷ [];
  url_stats = record { id = 7; url = bytes "http://a"; label = []; up = up } ∷ [];
}

abbrev busy : AllMetrics
busy = metrics_of 95 false

abbrev idle : AllMetrics
idle = metrics_of 5 true

abbrev busy_url : UrlAlert
busy_url = record { id = 7; url = bytes "http://a"; label = []; up = false }

abbrev cpu_check : Check
cpu_check = gauge_check loaded_engine (bytes "cpu_pct") (of_nat 95) cpu_usage

busy-HasKeys : HasKeys busy
busy-HasKeys = record { mounts = (tt, tt); ids = (tt, tt) }

empty_world-InSync : InSync loaded_engine.active empty_world.tables
unfolding open_ids lookup new_tables
empty_world-InSync = record { fresh = tt; agree = λ k. refl }

-- Three alerts are fired at first, and the two that an idle machine clears go.
busy_fires :
    map (λ (a : Alert). a.id) (evaluate calm_env loaded_engine busy empty_world).0.fired
    ≡ 1 ∷ 2 ∷ 3 ∷ []
unfolding evaluate evaluate_checks evaluate_check fire resolve insert_alert checks disk_check
    url_check lookup insert new_tables text_discrete of_nat
busy_fires = refl

run-InSync_example :
    let (e, w) =
      run calm_env
        (evaluates busy ∷ acknowledges 1 ∷ purges ∷ restarts ∷ evaluates idle ∷ [])
        loaded_engine
        empty_world in
    InSync e.active w.tables
run-InSync_example =
    run-InSync calm_env calm_env-IsReliable
      (evaluates busy ∷ acknowledges 1 ∷ purges ∷ restarts ∷ evaluates idle ∷ []) loaded_engine
      empty_world empty_world-InSync

evaluate-level_example :
    is_active (bytes "cpu_pct") (evaluate calm_env loaded_engine busy empty_world).0.active
    ≡ level cpu_check (is_active (bytes "cpu_pct") [])
unfolding checks
evaluate-level_example =
    evaluate-level calm_env calm_env-IsReliable loaded_engine busy empty_world cpu_check
      busy-HasKeys (Memᴰ.head refl)

evaluate-fired_example :
    map report (evaluate calm_env loaded_engine busy empty_world).0.fired
    ≡ keep (rises []) (checks loaded_engine busy)
evaluate-fired_example =
    evaluate-fired calm_env calm_env-IsReliable loaded_engine busy empty_world busy-HasKeys

evaluate_again_example :
    let p = (evaluate calm_env loaded_engine busy empty_world).0 in
    evaluate calm_env (record loaded_engine { active = p.active }) busy p.world
    ≡ (record p { fired = [] }, none)
evaluate_again_example =
    evaluate_again calm_env calm_env-IsReliable loaded_engine busy empty_world busy-HasKeys

evaluate-expected_example :
    is_active (url_kind 7) (evaluate calm_env loaded_engine busy empty_world).0.active
    ≡ expected (url_kind 7) (checks loaded_engine busy) (is_active (url_kind 7) [])
evaluate-expected_example =
    evaluate-expected calm_env calm_env-IsReliable loaded_engine busy empty_world (url_kind 7)

-- An engine that holds an alert of a disk that is not mounted any more.
abbrev gone_disk : Text
gone_disk = disk_kind (bytes "/mnt")

abbrev holding_engine : Engine
holding_engine = record loaded_engine { active = (gone_disk, 1) ∷ [] }

abbrev first_byte : Text → ℕ
first_byte [] = 0
first_byte (c ∷ s) = c

evaluate_unchecked_example :
    is_active gone_disk (evaluate calm_env holding_engine busy empty_world).0.active
    ≡ is_active gone_disk holding_engine.active
unfolding checks disk_check url_check
evaluate_unchecked_example =
    evaluate_unchecked calm_env calm_env-IsReliable holding_engine busy empty_world gone_disk (
      (λ e. cc),
      ((λ e. cc), ((λ e. cc), ((λ e. cc), ((λ e. omega (arith, ap first_byte e)), tt)))),
    )

restart_example :
    let (e, r, w) = load_thresholds calm_env new_engine empty_world in
    (r ≡ ok tt)
    × (e.thresholds ≡ empty_world.tables.thresholds)
    × ((k : Text) → lookup text_discrete k e.active ≡ lookup text_discrete k loaded_engine.active)
    × (w.tables ≡ empty_world.tables)
restart_example = restart calm_env calm_env-IsReliable loaded_engine empty_world empty_world-InSync

update_threshold-agree_example :
    let (e, r, w) =
      update_threshold calm_env loaded_engine (bytes "cpu_pct") (of_nat 50) empty_world in
    ThresholdsAgree e w.tables
    × ((r ≡ ok tt)
        → (k : Text) (default : Float64)
        → threshold e k default
          ≡ ite (text_discrete (bytes "cpu_pct") k) (of_nat 50) (threshold loaded_engine k default))
    × ((x : Error) → r ≡ err x → (e ≡ loaded_engine) × (w.tables ≡ empty_world.tables))
unfolding new_tables
update_threshold-agree_example =
    update_threshold-agree calm_env loaded_engine (bytes "cpu_pct") (of_nat 50) empty_world
      (λ k. refl)

abbrev start_progress : Progress
start_progress = record { active = []; fired = []; world = empty_world }

-- The second statement fails: the CPU is fired, and the disk is not.
abbrev late_env : Env
late_env = record calm_env {
  faults = λ n. if n == 1 then some (failure (bytes "disk full")) else none;
}

late_failure :
    (evaluate late_env loaded_engine busy empty_world).1 ≡ some (failure (bytes "disk full"))
unfolding evaluate evaluate_checks evaluate_check fire insert_alert lookup text_discrete of_nat
    new_tables checks insert disk_check
late_failure = refl

evaluate-StopsAt_example :
    StopsAt late_env (checks loaded_engine busy) start_progress (failure (bytes "disk full"))
evaluate-StopsAt_example =
    evaluate-StopsAt late_env loaded_engine busy empty_world (failure (bytes "disk full"))
      late_failure

-- A fired alert of the CPU, which then calms down.
abbrev calm_check : Check
calm_check = record cpu_check { value = of_nat 5 }

abbrev fired_alert : Alert
fired_alert = record (alert_at cpu_check 1000) { id = 1 }

abbrev held_world : World
held_world = record {
  tables = record new_tables { alerts = fired_alert ∷ []; next_alert = 2 };
  calls = 1;
  reads = 1;
}

abbrev held_progress : Progress
held_progress = record { active = (bytes "cpu_pct", 1) ∷ []; fired = []; world = held_world }

held_progress-InSync : InSync held_progress.active held_progress.world.tables
unfolding open_ids lookup new_tables
held_progress-InSync = record { fresh = (omega arith, tt); agree = λ k. ground arith }

-- The second statement fails, and no other.
abbrev flaky_env : Env
flaky_env = record calm_env {
  faults = λ n. if n == 1 then some (failure (bytes "disk full")) else none;
}

resolve_fault_example :
    let (p, r) = evaluate_check flaky_env calm_check held_progress in
    (r ≡ none)
    × (lookup text_discrete (bytes "cpu_pct") p.active ≡ none)
    × (open_ids (bytes "cpu_pct") p.world.tables.alerts ≡ 1 ∷ [])
    × ((d : Check)
        → d.kind ≡ bytes "cpu_pct"
        → level d false ≡ true
        → flaky_env.faults p.world.calls ≡ none
        → open_ids (bytes "cpu_pct") (evaluate_check flaky_env d p).0.world.tables.alerts
          ≡ p.world.tables.next_alert ∷ 1 ∷ [])
unfolding lookup text_discrete of_nat
resolve_fault_example =
    resolve_fault flaky_env calm_check held_progress 1 (failure (bytes "disk full"))
      held_progress-InSync refl refl refl
