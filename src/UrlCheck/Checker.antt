-- ===== src/UrlCheck/Checker.antt =====
-- internal/urlcheck/checker.go: the checker's maps, its goroutines, and its operations. A goroutine
-- of `runCheck` is a worker, named by a number; `stopped` says that its channel `stopCh` was closed.
use monitoring.Base.{
  ◌==◌, if◌then◌else◌, Float64, of_nat, lookup, insert, delete, Text, ℕ, suc, Bool, true, false,
  Option, none, some, List, [], ◌∷◌, map, ℕ_discrete,
}
use monitoring.Storage.{
  UrlCheck, Result, ok, err, Env, World, insert_url_check, update_url_check, delete_url_check,
  list_url_checks,
}

-- `Result`: `storage.URLResult` with what the broadcast adds.
pub record CheckResult : Type 0 where
  pub check_id : ℕ
  pub checked_at : ℕ
  pub up : Bool
  pub status_code : Option ℕ
  pub latency_ms : Option ℕ
  pub error : Option Text
  pub url : Text
  pub label : Text

pub record Summary : Type 0 where
  pub check : UrlCheck
  pub last_result : Option CheckResult
  pub uptime_pct : Float64
  pub history : List CheckResult

-- The context that a goroutine was started with: that of `main`, or that of an HTTP request.
pub data Context : Type 0 where
  background : Context
  request : ℕ → Context

pub record Worker : Type 0 where
  pub handle : ℕ
  pub check : UrlCheck
  pub context : Context
  pub stopped : Bool

pub record Checker : Type 0 where
  pub checks : List (ℕ × ℕ)
  pub summaries : List (ℕ × Summary)
  pub results : List CheckResult
  pub workers : List Worker
  pub next_worker : ℕ

abbrev pub results_cap : ℕ
results_cap = 64

abbrev pub history_cap : ℕ
history_cap = 20

unfoldable pub new_checker : Checker
new_checker = record { checks = []; summaries = []; results = []; workers = []; next_worker = 0 }

abbrev pub new_summary : UrlCheck → Summary
new_summary ch = record { check = ch; last_result = none; uptime_pct = of_nat 0; history = [] }

-- `if c.summaries[ch.ID] == nil { … }`
abbrev pub ensure_summary : UrlCheck → List (ℕ × Summary) → List (ℕ × Summary)
ensure_summary ch m = elim (lookup ℕ_discrete ch.id m) [
  | none ↦ insert ℕ_discrete ch.id (new_summary ch) m
  | some s ↦ m
]

unfoldable pub start_check : Context → UrlCheck → Checker → Checker
start_check ctx ch c = record c {
  checks = insert ℕ_discrete ch.id c.next_worker c.checks;
  summaries = ensure_summary ch c.summaries;
  workers =
      record { handle = c.next_worker; check = ch; context = ctx; stopped = false } ∷ c.workers;
  next_worker = suc c.next_worker;
}

abbrev pub stop_worker : ℕ → Worker → Worker
stop_worker h w = if w.handle == h then record w { stopped = true } else w

unfoldable pub stop_check : ℕ → Checker → Checker
stop_check id c = elim (lookup ℕ_discrete id c.checks) [
  | none ↦ c
  | some h ↦ record c {
    checks = delete ℕ_discrete id c.checks;
    workers = map (stop_worker h) c.workers;
  }
]

abbrev pub start_enabled : Context → UrlCheck → Checker → Checker
start_enabled ctx ch c = if ch.enabled then start_check ctx ch c else c

-- The loop of `Start`.
unfoldable pub start_all : Context → List UrlCheck → Checker → Checker
start_all ctx [] c = c
start_all ctx (ch ∷ rest) c = start_all ctx rest (start_enabled ctx ch c)

abbrev pub after_list :
    Context → Checker → Result (List UrlCheck) × World → Checker × Result (Unit {0}) × World
after_list ctx c (ok found, w) = (start_all ctx found c, ok tt, w)
after_list ctx c (err x, w) = (c, err x, w)

unfoldable pub start : Env → Context → Checker → World → Checker × Result (Unit {0}) × World
start env ctx c w = after_list ctx c (list_url_checks env w)

abbrev pub after_insert :
    Context → UrlCheck → Checker → Result ℕ × World → Checker × Result UrlCheck × World
after_insert ctx ch c (ok id, w) =
    let ch' = record ch { id = id } in
    let c' = record c { summaries = insert ℕ_discrete id (new_summary ch') c.summaries } in
    (start_enabled ctx ch' c', ok ch', w)
after_insert ctx ch c (err x, w) = (c, err x, w)

unfoldable pub add : Env → Context → UrlCheck → Checker → World → Checker × Result UrlCheck × World
add env ctx ch c w = after_insert ctx ch c (insert_url_check env ch w)

-- `if s, ok := c.summaries[ch.ID]; ok { s.Check = ch }`
abbrev pub set_summary_check : UrlCheck → List (ℕ × Summary) → List (ℕ × Summary)
set_summary_check ch m = elim (lookup ℕ_discrete ch.id m) [
  | none ↦ m
  | some s ↦ insert ℕ_discrete ch.id (record s { check = ch }) m
]

-- What `Update` does once the row is written.
unfoldable pub restart_check : Context → UrlCheck → Checker → Checker
restart_check ctx ch c =
    let c' = stop_check ch.id c in
    start_enabled ctx ch (record c' { summaries = set_summary_check ch c'.summaries })

abbrev pub after_update :
    Context → UrlCheck → Checker → Result (Unit {0}) × World → Checker × Result (Unit {0}) × World
after_update ctx ch c (ok _, w) = (restart_check ctx ch c, ok tt, w)
after_update ctx ch c (err x, w) = (c, err x, w)

unfoldable pub update :
    Env → Context → UrlCheck → Checker → World → Checker × Result (Unit {0}) × World
update env ctx ch c w = after_update ctx ch c (update_url_check env ch w)

-- The goroutine and the summary go, whether or not the row can be deleted.
unfoldable pub forget : ℕ → Checker → Checker
forget id c =
    let c' = stop_check id c in record c' { summaries = delete ℕ_discrete id c'.summaries }

abbrev pub with_checker : Checker → Result (Unit {0}) × World → Checker × Result (Unit {0}) × World
with_checker c (r, w) = (c, r, w)

unfoldable pub remove : Env → ℕ → Checker → World → Checker × Result (Unit {0}) × World
remove env id c w = with_checker (forget id c) (delete_url_check env id w)

-- `Summaries` copies the map's values, in the map's own order.
unfoldable pub all_summaries : Checker → List Summary
all_summaries c = map (λ (x : ℕ × Summary). x.1) c.summaries

unfoldable pub get_summary : ℕ → Checker → Option Summary
get_summary id c = lookup ℕ_discrete id c.summaries
