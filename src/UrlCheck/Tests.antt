-- ===== src/UrlCheck/Tests.antt =====
-- Checkers of internal/urlcheck/checker.go with one goroutine, and the theorems at those.
use mathlib.Core.List.{Memᴰ}
use monitoring.Base.{
  ◌==◌, if◌then◌else◌, is_some, of_nat, length, count, All, lookup, bytes, pos, ◌≤ℤ◌, ℕ, ◌+◌, ◌*◌,
  ◌≤◌, ◌≡◌, refl, ◌⊎◌, true, false, none, [], ◌∷◌, map, arith, ℕ_discrete,
}
use monitoring.Storage.{UrlCheck, new_tables, Error, ok, err, Env, World}
use monitoring.UrlCheck.Loop.{waiting, returned, Loop, Move, Moves}
use monitoring.UrlCheck.Ending.{run_check-ends}
use monitoring.UrlCheck.Checker.{
  CheckResult, background, request, Checker, new_checker, start_check, start, update, remove,
  get_summary,
}
use monitoring.UrlCheck.Probe.{responded, do_check, do_and_store, nanoseconds, interval}
use monitoring.UrlCheck.Running.{running, IsTidy, new_checker-IsTidy, start_check-IsTidy}
use monitoring.UrlCheck.Starting.{has_enabled, enabled_as, IsFor, start-IsTidy}
use monitoring.UrlCheck.Changed.{running-update, running-remove, interval-exact}

abbrev quiet_env : Env
quiet_env = record { faults = λ n. none; clock = λ n. 5000 + n; percent = λ a b. of_nat 100 }

abbrev site : UrlCheck
site = record {
  id = 1;
  url = bytes "http://a";
  label = bytes "a";
  interval_seconds = pos 60;
  timeout_seconds = pos 10;
  enabled = true;
  created_at = 0;
}

abbrev site_world : World
site_world = record {
  tables = record new_tables { url_checks = site ∷ []; next_check = 2 };
  calls = 0;
  reads = 0;
}

abbrev watching : Checker
watching = start_check background site new_checker

watching-IsTidy : IsTidy watching
unfolding new_checker lookup
watching-IsTidy = start_check-IsTidy background site new_checker refl new_checker-IsTidy

-- A response with status 503 is down, and is what the summary shows.
probe_shows :
    map
      (λ (r : CheckResult). r.up)
      (do_and_store quiet_env site (responded 503 12) watching site_world).0.results
    ≡ false ∷ []
unfolding do_and_store do_check start_check new_checker
probe_shows = refl

running-update_example :
    let (c, r, w) =
      update quiet_env (request 3) (record site { enabled = false }) watching site_world in
    ((r ≡ ok tt) → (i : ℕ) → running i c ≡ (if 1 == i then [] else running i watching))
    × ((x : Error) → r ≡ err x → (c ≡ watching) × (w.tables ≡ site_world.tables))
running-update_example =
    running-update quiet_env (request 3) (record site { enabled = false }) watching site_world
      watching-IsTidy

running-remove_example :
    let (c, r, w) = remove quiet_env 1 watching site_world in
    (running 1 c ≡ []) × (get_summary 1 c ≡ none)
running-remove_example = running-remove quiet_env 1 watching site_world 1 watching-IsTidy

interval-exact_example :
    (pos nanoseconds ≤ℤ interval site)
    × ((n : ℕ)
        → site.interval_seconds ≡ pos n
        → 1 ≤ n
        → n ≤ 9223372036
        → interval site ≡ pos (n * nanoseconds))
interval-exact_example = interval-exact site

abbrev idle_site : UrlCheck
idle_site = record site { id = 2; url = bytes "http://b"; enabled = false }

abbrev two_sites_world : World
two_sites_world = record {
  tables = record new_tables { url_checks = idle_site ∷ site ∷ []; next_check = 3 };
  calls = 0;
  reads = 0;
}

start-IsTidy_example :
    let (c, r, w) = start quiet_env background new_checker two_sites_world in
    (r ≡ ok tt)
    × IsTidy c
    × ((i : ℕ)
        → is_some (lookup ℕ_discrete i c.checks) ≡ has_enabled i two_sites_world.tables.url_checks)
    × (w.tables ≡ two_sites_world.tables)
    × ((i : ℕ) → length (running i c) ≡ count (enabled_as i) two_sites_world.tables.url_checks)
    × All (IsFor (λ u. Memᴰ u two_sites_world.tables.url_checks) background) c.workers
start-IsTidy_example =
    start-IsTidy quiet_env background two_sites_world (λ n. refl)
      (((λ e. omega (arith, e)), tt), (tt, tt))

-- A goroutine whose context is done while a tick waits: it probes once more, then returns.
abbrev late_loop : Loop
late_loop = record {
  position = waiting;
  tick = true;
  stopped = false;
  cancelled = true;
  probes = 5;
}

abbrev ended_loop : Loop
ended_loop = record {
  position = returned;
  tick = false;
  stopped = false;
  cancelled = true;
  probes = 6;
}

run_check-ends_example :
    (2 ≤ 3) × (6 ≤ 5 + 2) × ((returned ≡ returned) ⊎ ((m : Loop) × Move ended_loop m))
run_check-ends_example =
    run_check-ends 2 late_loop ended_loop refl
      (Moves.moved (Move.on_tick refl refl) (Moves.moved (Move.on_done refl refl) Moves.still))
