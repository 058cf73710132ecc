-- ===== src/Http/Tests.antt =====
-- Requests on /api/url-checks of internal/http/handlers.go, and the theorems at those.
use monitoring.Base.{
  of_nat, lookup, Text, bytes, text_discrete, pos, ℕ, ◌+◌, ◌≡◌, refl, ◌≢◌, ite, Bool, true, false,
  Option, none, some, List, [], ◌∷◌, map, arith,
}
use monitoring.Storage.{UrlCheck, new_tables, Env, url_taken, insert_url_check}
use monitoring.Alerts.Engine.{new_engine}
use monitoring.UrlCheck.Checker.{request, new_checker, add}
use monitoring.UrlCheck.Running.{running, new_checker-IsTidy}
use monitoring.UrlCheck.Numbers.{IsKept}
use monitoring.Http.Messages.{
  get_method, post_method, put_method, delete_method, CreateRequest, UpdateRequest, check_row,
  write_json,
}
use monitoring.Http.Handlers.{App, new_check, create_url_check, handle_url_checks}
use monitoring.Config.{
  Config, auth_enabled, set_basic_auth, split_comma, trim_space, set_services, default_flags,
  config_of,
}
use monitoring.Http.Routes.{admits}
use monitoring.Http.Entry.{method_of, path_of, values_of, serve_route-credentials}
use monitoring.Http.Table.{
  Target, history_target, match_path, handled, unauthorized, files, find_route, serve_route,
}
use monitoring.Http.Latest.{
  Latest, metrics, services_body, security_body, tunnel_body, handle_metrics, handle_services,
  handle_security, handle_tunnel, Tick, fast, slow, collect, newest, collect-newest,
}
use monitoring.Http.Lifetime.{created_row, create-running}
use monitoring.Http.History.{Request, asks_all, asks_one, serve, serve_all, serve_all-IsKept}

abbrev still_env : Env
still_env = record { faults = λ n. none; clock = λ n. 7000 + n; percent = λ a b. of_nat 100 }

abbrev first_app : App
first_app = record {
  engine = new_engine;
  checker = new_checker;
  world = record { tables = new_tables; calls = 0; reads = 0 };
}

first_app-IsKept : IsKept first_app.checker first_app.world.tables
unfolding new_checker new_tables lookup
first_app-IsKept = record { tidy = new_checker-IsTidy; ids = λ i h e. cc; rows = tt }

abbrev site_request : CreateRequest
site_request = record {
  url = bytes "http://a";
  label = [];
  interval_seconds = pos 0;
  timeout_seconds = pos 5;
  enabled = none;
}

abbrev disable_request : UpdateRequest
disable_request = record {
  url = none;
  label = none;
  interval_seconds = none;
  timeout_seconds = none;
  enabled = some false;
}

abbrev requests : List Request
requests =
    asks_all (request 1) post_method (some site_request)
    ∷ asks_one (request 2) put_method (bytes "1") (some disable_request)
    ∷ asks_one (request 3) delete_method (bytes "1") none
    ∷ []

-- The first request makes a check with the default interval.
created :
    map
      (λ (u : UrlCheck). u.interval_seconds)
      (serve_all still_env
        (asks_all (request 1) post_method (some site_request) ∷ [])
        first_app).world.tables.url_checks
    ≡ pos 60 ∷ []
unfolding serve_all serve handle_url_checks create_url_check add insert_url_check new_check
    new_tables new_checker url_taken
created = refl

serve_all-IsKept_example :
    let a = serve_all still_env requests first_app in IsKept a.checker a.world.tables
serve_all-IsKept_example = serve_all-IsKept still_env requests first_app first_app-IsKept

abbrev no_data : Latest ℕ ℕ ℕ ℕ ℕ ℕ
no_data = record {
  system = none;
  app = none;
  network = none;
  security = none;
  tunnel = none;
  services = none;
}

abbrev ticks : List (Tick ℕ ℕ ℕ ℕ ℕ ℕ)
ticks = fast (some 1) none (some 2) none ∷ slow (some 3) none ∷ fast none (some 4) none none ∷ []

collect-newest_example :
    let d = collect ℕ ℕ ℕ ℕ ℕ ℕ ticks no_data in
    (handle_metrics ℕ ℕ ℕ ℕ ℕ ℕ get_method d ≡ (200, metrics (some 1) (some 4) (some 2)))
    × (handle_services ℕ ℕ ℕ ℕ ℕ ℕ get_method d ≡ (200, services_body none))
    × (handle_security ℕ ℕ ℕ ℕ ℕ ℕ get_method d ≡ (200, security_body (some 3)))
    × (handle_tunnel ℕ ℕ ℕ ℕ ℕ ℕ get_method d ≡ (200, tunnel_body none))
unfolding newest
collect-newest_example = collect-newest ℕ ℕ ℕ ℕ ℕ ℕ ticks no_data

abbrev blank_config : Config
blank_config = config_of default_flags

-- A hash that spells the password itself.
abbrev own_hash : Text → Option Text
own_hash pass = some pass

abbrev same_text : Text → Text → Bool
same_text secret pass = ite (text_discrete secret pass) true false

same_text-law :
    (q : Text)
    → ((same_text (bytes "pw") q ≡ true) → q ≡ bytes "pw")
      × (q ≡ bytes "pw" → same_text (bytes "pw") q ≡ true)
same_text-law q = (ground arith, ground arith)

serve_route-credentials_example :
    (c : Config) × (set_basic_auth own_hash (bytes "me:pw") blank_config ≡ some c)
    × ((m : Text) (path : List Text) (creds : Option (Text × Text)) (h : Target) (ids : List Text)
        → serve_route same_text c m path creds ≡ handled h ids
        → creds ≡ some (bytes "me", bytes "pw"))
    × ((h : Target) (k : ℕ) (id : Text)
        → (serve_route same_text c
              (method_of h)
              (path_of h (k ∷ id))
              (some (bytes "me", bytes "pw"))
            ≡ handled h (values_of h (k ∷ id)))
          × ((creds : Option (Text × Text))
              → creds ≢ some (bytes "me", bytes "pw")
              → serve_route same_text c (method_of h) (path_of h (k ∷ id)) creds ≡ unauthorized))
serve_route-credentials_example =
    serve_route-credentials own_hash same_text 109 112 (bytes "e") (bytes "w") blank_config
      (bytes "pw") (refl, (refl, tt)) refl same_text-law

-- Without the flag everybody reaches the history of a check, also by HEAD; what no pattern takes
-- goes to the file server.
open_history :
    (serve_route same_text blank_config
        (bytes "HEAD")
        (bytes "api" ∷ bytes "url-checks" ∷ bytes "7" ∷ bytes "history" ∷ [])
        none
      ≡ handled history_target (bytes "7" ∷ []))
    × (serve_route same_text blank_config (bytes "POST") (bytes "api" ∷ bytes "metrics" ∷ []) none
        ≡ files)
unfolding serve_route find_route match_path text_discrete admits auth_enabled
open_history = (refl, refl)

-- Two names, and what stands between the commas.
named_services :
    (set_services (bytes " nginx,, ssh ") blank_config).services ≡ bytes "nginx" ∷ bytes "ssh" ∷ []
unfolding set_services split_comma trim_space
named_services = refl

create-running_example :
    let row = created_row site_request 7000 1 in
    let (answer, b) =
      handle_url_checks still_env (request 7) post_method (some site_request) first_app in
    (answer ≡ write_json 201 (check_row row))
    × (running 1 b.checker
        ≡ record { handle = 0; check = row; context = request 7; stopped = false } ∷ [])
unfolding new_tables new_checker url_taken
create-running_example =
    create-running still_env 7 site_request first_app (λ n. refl) first_app-IsKept refl refl refl
