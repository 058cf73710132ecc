-- ===== src/Storage/Tests.antt =====
-- The statements of internal/storage/sqlite.go on small tables.
use monitoring.Base.{
  of_nat, Falls, length, All, Apart, lookup, Text, bytes, text_discrete, pos, ◌≤◌, ◌<◌, ◌≡◌, refl,
  true, none, some, List, [], ◌∷◌,
}
use monitoring.Storage.Schema.{UrlCheck, UrlResult, SshEvent, IpCount, Tables, new_tables}
use monitoring.Storage.Session.{ok, Env, World}
use monitoring.Storage.Checks.{
  url_taken, find_check, insert_url_check, delete_url_check, insert_url_result,
}
use monitoring.Storage.Events.{event_failed, by_count, failed_ssh_by_ip}
use monitoring.Storage.Unique.{TablesAreUnique, perform_all_unique}
use monitoring.Storage.Open.{migrate, migrate-keeps}
use monitoring.Storage.Integrity.{
  HasParents, Statement, inserts_check, deletes_check, inserts_result, perform, perform_all,
  perform_all-HasParents,
}
use monitoring.Storage.Groups.{ip_of}
use monitoring.Storage.Sources.{failures, IsListed, failed_ssh_by_ip-sources}

abbrev fair_env : Env
fair_env = record { faults = λ n. none; clock = λ n. n; percent = λ a b. of_nat 100 }

abbrev fresh_world : World
fresh_world = record { tables = new_tables; calls = 0; reads = 0 }

abbrev page : UrlCheck
page = record {
  id = 0;
  url = bytes "http://c";
  label = [];
  interval_seconds = pos 60;
  timeout_seconds = pos 10;
  enabled = true;
  created_at = 0;
}

abbrev page_result : UrlResult
page_result = record {
  id = 0;
  check_id = 1;
  checked_at = 9;
  up = true;
  status_code = some 200;
  latency_ms = some 5;
  error = none;
}

abbrev statements : List Statement
statements =
    inserts_check page
    ∷ inserts_result page_result
    ∷ inserts_result (record page_result { check_id = 2 })
    ∷ deletes_check 1
    ∷ []

-- The second result has no check, and the first goes with its check.
none_left : (perform_all fair_env statements fresh_world).tables.url_check_results ≡ []
unfolding perform_all perform insert_url_check insert_url_result delete_url_check find_check
    url_taken new_tables
none_left = refl

perform_all-HasParents_example : HasParents (perform_all fair_env statements fresh_world).tables
unfolding new_tables
perform_all-HasParents_example = perform_all-HasParents fair_env statements fresh_world tt

abbrev login : Text → SshEvent
login ip = record {
  id = 0;
  occurred_at = 5;
  event_type = event_failed;
  username = none;
  source_ip = ip;
  port = none;
}

abbrev logins : List SshEvent
logins = login (bytes "1.1.1.1") ∷ login (bytes "2.2.2.2") ∷ login (bytes "1.1.1.1") ∷ []

-- A login that succeeded, one that failed too early, and three that count.
abbrev login_world : World
login_world = record {
  tables = record new_tables {
    ssh_events =
        record (login (bytes "3.3.3.3")) { event_type = bytes "success" }
        ∷ record (login (bytes "2.2.2.2")) { occurred_at = 1 }
        ∷ logins;
  };
  calls = 0;
  reads = 0;
}

failed_ssh_by_ip-sources_example :
    let rows = login_world.tables.ssh_events in
    (out : List IpCount) × (failed_ssh_by_ip fair_env 4 login_world
      ≡ (ok out, record login_world { calls = 1 }))
    × Falls by_count out
    × (length out ≤ 20)
    × Apart ip_of out
    × All (λ c. (0 < c.count) × (c.count ≡ failures 4 c.ip rows)) out
    × ((ip : Text) → IsListed 20 (failures 4 ip rows) ip out)
failed_ssh_by_ip-sources_example = failed_ssh_by_ip-sources fair_env 4 login_world refl

perform_all_unique_example : TablesAreUnique (perform_all fair_env statements fresh_world).tables
unfolding new_tables
perform_all_unique_example =
    perform_all_unique fair_env statements fresh_world (record { ids = tt; urls = tt; below = tt })

-- A file whose owner has set one threshold and lost another.
abbrev old_file : Tables
old_file = record new_tables { thresholds = (bytes "cpu_pct", of_nat 75) ∷ [] }

migrate-keeps_example :
    let t' = migrate (some old_file) in
    (t' ≡ record old_file { thresholds = t'.thresholds })
    × (lookup text_discrete (bytes "cpu_pct") t'.thresholds ≡ some (of_nat 75))
    × (lookup text_discrete (bytes "cpu_pct") (migrate (some t')).thresholds
        ≡ lookup text_discrete (bytes "cpu_pct") t'.thresholds)
unfolding lookup text_discrete
migrate-keeps_example = migrate-keeps old_file (bytes "cpu_pct")
