-- ===== src/Tunnel/Tests.antt =====
-- A tunnel of internal/tunnel/tunnel.go that starts, goes on and stops.
use monitoring.Base.{
  of_nat, Text, bytes, text_discrete, cut_prefix, pos, ◌≡◌, refl, false, none, some, List, [], ◌∷◌,
  ◌++◌, map,
}
use monitoring.Storage.{new_tables, Env, World, insert_tunnel_event, recent_tunnel_events}
use monitoring.Tunnel.Detector.{
  Process, new_detector, tunnel_name_from_args, find_process, get_version, connected, disconnected,
  log_transition, collect,
}
use monitoring.Tunnel.Names.{contains, is_cloudflared, word_front, version_in}
use monitoring.Tunnel.Transitions.{
  Alternates, log_of, Sight, watch, sees, changes, last_seen, watch-Alternates,
}

abbrev steady_env : Env
steady_env = record { faults = λ n. none; clock = λ n. n; percent = λ a b. of_nat 100 }

abbrev bare_world : World
bare_world = record { tables = new_tables; calls = 0; reads = 0 }

abbrev daemon : Process
daemon = record {
  name = some (bytes "Cloudflared");
  pid = 42;
  uptime = some (pos 7);
  cmdline = some (bytes "cloudflared" ∷ bytes "run" ∷ bytes "home" ∷ []);
}

abbrev version_output : Text
version_output = bytes "cloudflared version 2024.1.0 (built 2024-01-04)"

abbrev sights : List Sight
sights =
    (some [], none)
    ∷ (some (daemon ∷ []), some version_output)
    ∷ (some (daemon ∷ []), none)
    ∷ (none, none)
    ∷ []

logged : log_of (watch steady_env sights new_detector bare_world).1 ≡ disconnected ∷ connected ∷ []
unfolding watch collect log_transition find_process get_version is_cloudflared contains cut_prefix
    insert_tunnel_event recent_tunnel_events new_detector new_tables
logged = refl

found_version : version_in version_output ≡ some (bytes "2024.1.0")
unfolding version_in cut_prefix word_front
found_version = refl

named_tunnel :
    tunnel_name_from_args (bytes "cloudflared" ∷ bytes "run" ∷ bytes "home" ∷ []) ≡ bytes "home"
unfolding tunnel_name_from_args text_discrete
named_tunnel = refl

watch-Alternates_example :
    let (d, w) = watch steady_env sights new_detector bare_world in
    (log_of w ≡ changes false (map sees sights) ++ [])
    × (d.last_running ≡ last_seen false (map sees sights))
    × Alternates d.last_running (log_of w)
unfolding Alternates new_detector new_tables
watch-Alternates_example = watch-Alternates steady_env (λ n. refl) sights new_detector bare_world tt
