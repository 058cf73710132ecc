-- ===== src/Services/Tests.antt =====
-- A service that runs, as systemctl shows it.
use monitoring.Base.{
  All, Text, bytes, text_discrete, fits, Fits, tokens, stop_at, pos, ℕ, ◌≡◌, refl, true, Option,
  none, some, List, [], ◌∷◌,
}
use monitoring.Services.Monitor.{
  cut_equals, saturated, atoi_value, set_property, set_lines, query_service,
}
use monitoring.Services.Parsing.{last_value, query_service-last}

abbrev no_time : Text → Option ℕ
no_time v = none

abbrev shown_lines : List Text
shown_lines =
    bytes "NRestarts=2" ∷ bytes "ActiveState=active" ∷ bytes "SubState=running" ∷ bytes "noise" ∷ []

restarts : (query_service no_time (bytes "ssh") (some shown_lines)).0.restart_count ≡ pos 2
unfolding query_service tokens fits stop_at set_lines set_property cut_equals text_discrete
    atoi_value saturated
restarts = refl

query_service-last_example :
    let (svc, fine) = query_service no_time (bytes "ssh") (some shown_lines) in
    (svc.active ≡ last_value (bytes "ActiveState") (tokens shown_lines) [])
    × (svc.sub_state ≡ last_value (bytes "SubState") (tokens shown_lines) [])
    × (svc.load_state ≡ last_value (bytes "LoadState") (tokens shown_lines) [])
    × (All Fits shown_lines → (tokens shown_lines ≡ shown_lines) × (fine ≡ true))
query_service-last_example = query_service-last no_time (bytes "ssh") shown_lines
