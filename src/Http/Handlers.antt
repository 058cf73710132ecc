-- ===== src/Http/Handlers.antt =====
-- internal/http/handlers.go: the handlers that read or change the checks, the alerts and the
-- thresholds. `ctx` is the request's context.
use monitoring.Base.{
  if◌then◌else◌, Float64, parse_int, Text, bytes, ℤ, pos, pos_part, leb_ℤ, ℕ, suc, Bool, true,
  false, Option, none, some, List, [], ◌∷◌, map,
}
use monitoring.Storage.{
  Alert, UrlCheck, UrlResult, Error, Result, ok, err, Env, World, acknowledge_alert, active_alerts,
  recent_alerts, get_url_check, url_result_history,
}
use monitoring.Alerts.Engine.{Engine, update_threshold}
use monitoring.UrlCheck.Checker.{
  Summary, Context, Checker, add, update, remove, all_summaries, get_summary,
}
use monitoring.Http.Messages.{
  Method, get_method, post_method, put_method, delete_method, CreateRequest, UpdateRequest, Item,
  done, alert_lists, check_row, items, summary, results, threshold_map, Response, write_json,
  write_error, method_not_allowed, invalid_id, invalid_json, not_found, internal_error, row_id,
}

-- What the handlers share: `Handler.engine`, `Handler.checker`, and the world with the database.
pub record App : Type 0 where
  pub engine : Engine
  pub checker : Checker
  pub world : World

abbrev pub with_world : App → World → App
with_world a w = record a { world = w }

abbrev pub after_recent : App → List Alert → Result (List Alert) × World → Response × App
after_recent a active (ok recent, w) = (write_json 200 (alert_lists active recent), with_world a w)
after_recent a active (err e, w) = (internal_error e, with_world a w)

abbrev pub after_active : Env → App → Result (List Alert) × World → Response × App
after_active env a (ok active, w) = after_recent a active (recent_alerts env 50 w)
after_active env a (err e, w) = (internal_error e, with_world a w)

unfoldable pub handle_alerts : Env → Method → App → Response × App
handle_alerts env get_method a = after_active env a (active_alerts env a.world)
handle_alerts env _ a = (method_not_allowed, a)

abbrev pub after_acknowledge : App → Result (Unit {0}) × World → Response × App
after_acknowledge a (ok _, w) = (write_json 200 done, with_world a w)
after_acknowledge a (err e, w) = (internal_error e, with_world a w)

abbrev pub acknowledge_id : Env → Option ℤ → App → Response × App
acknowledge_id env none a = (invalid_id, a)
acknowledge_id env (some id) a = after_acknowledge a (acknowledge_alert env (row_id id) a.world)

unfoldable pub handle_acknowledge_alert : Env → Method → Text → App → Response × App
handle_acknowledge_alert env post_method id a = acknowledge_id env (parse_int id) a
handle_acknowledge_alert env _ id a = (method_not_allowed, a)

abbrev pub item_of : Summary → Item
item_of s = record { check = s.check; last_result = s.last_result; uptime_pct = s.uptime_pct }

unfoldable pub list_url_checks_handler : App → Response × App
list_url_checks_handler a = (write_json 200 (items (map item_of (all_summaries a.checker))), a)

abbrev pub default_if_not_positive : ℕ → ℤ → ℤ
default_if_not_positive d n = if leb_ℤ n (pos 0) then pos d else n

abbrev pub value_or : {A : Type 0} → Option A → A → A
value_or none d = d
value_or (some v) d = v

-- The row that `createURLCheck` makes of a request with a url.
unfoldable pub new_check : CreateRequest → ℕ → UrlCheck
new_check r time = record {
  id = 0;
  url = r.url;
  label = r.label;
  interval_seconds = default_if_not_positive 60 r.interval_seconds;
  timeout_seconds = default_if_not_positive 10 r.timeout_seconds;
  enabled = value_or r.enabled true;
  created_at = time;
}

abbrev pub after_add : App → Checker × Result UrlCheck × World → Response × App
after_add a (c, ok ch, w) = (write_json 201 (check_row ch), record a { checker = c; world = w })
after_add a (c, err e, w) = (internal_error e, record a { checker = c; world = w })

abbrev pub add_check : Env → Context → CreateRequest → App → Response × App
add_check env ctx r a =
    let w = a.world in
    after_add a
      (add env ctx (new_check r (env.clock w.reads)) a.checker (record w { reads = suc w.reads }))

abbrev pub is_empty : Text → Bool
is_empty [] = true
is_empty (c ∷ s) = false

unfoldable pub create_url_check : Env → Context → Option CreateRequest → App → Response × App
create_url_check env ctx none a = (invalid_json, a)
create_url_check env ctx (some r) a =
    if is_empty r.url then (write_error 400 (bytes "url is required"), a) else add_check env ctx r a

unfoldable pub handle_url_checks :
    Env → Context → Method → Option CreateRequest → App → Response × App
unfolding list_url_checks_handler create_url_check
handle_url_checks env ctx get_method body a = list_url_checks_handler a
handle_url_checks env ctx post_method body a = create_url_check env ctx body a
handle_url_checks env ctx _ body a = (method_not_allowed, a)

-- The fields that the request names are set in the row that was read.
unfoldable pub merge : UpdateRequest → UrlCheck → UrlCheck
merge r ch = record ch {
  url = value_or r.url ch.url;
  label = value_or r.label ch.label;
  interval_seconds = value_or r.interval_seconds ch.interval_seconds;
  timeout_seconds = value_or r.timeout_seconds ch.timeout_seconds;
  enabled = value_or r.enabled ch.enabled;
}

abbrev pub after_change : App → UrlCheck → Checker × Result (Unit {0}) × World → Response × App
after_change a ch (c, ok _, w) =
    (write_json 200 (check_row ch), record a { checker = c; world = w })
after_change a ch (c, err e, w) = (internal_error e, record a { checker = c; world = w })

abbrev pub after_get :
    Env → Context → Option UpdateRequest → App → Result UrlCheck × World → Response × App
after_get env ctx body a (err e, w) = (not_found, with_world a w)
after_get env ctx none a (ok ch, w) = (invalid_json, with_world a w)
after_get env ctx (some r) a (ok ch, w) =
    after_change a (merge r ch) (update env ctx (merge r ch) a.checker w)

unfoldable pub update_url_check_handler :
    Env → Context → Option UpdateRequest → ℕ → App → Response × App
update_url_check_handler env ctx body id a = after_get env ctx body a (get_url_check env id a.world)

abbrev pub after_remove : App → Checker × Result (Unit {0}) × World → Response × App
after_remove a (c, ok _, w) = (write_json 200 done, record a { checker = c; world = w })
after_remove a (c, err e, w) = (internal_error e, record a { checker = c; world = w })

abbrev pub summary_or_not_found : Option Summary → Response
summary_or_not_found none = not_found
summary_or_not_found (some s) = write_json 200 (summary s)

abbrev pub by_id : Env → Context → Method → Option UpdateRequest → ℕ → App → Response × App
by_id env ctx get_method body id a = (summary_or_not_found (get_summary id a.checker), a)
by_id env ctx put_method body id a = update_url_check_handler env ctx body id a
by_id env ctx delete_method body id a = after_remove a (remove env id a.checker a.world)
by_id env ctx _ body id a = (method_not_allowed, a)

abbrev pub by_parsed_id :
    Env → Context → Method → Option UpdateRequest → Option ℤ → App → Response × App
by_parsed_id env ctx m body none a = (invalid_id, a)
by_parsed_id env ctx m body (some id) a = by_id env ctx m body (row_id id) a

unfoldable pub handle_url_check_by_id :
    Env → Context → Method → Text → Option UpdateRequest → App → Response × App
unfolding update_url_check_handler
handle_url_check_by_id env ctx m id body a = by_parsed_id env ctx m body (parse_int id) a

-- The query's `limit`, if it is a positive number, and 20 otherwise.
unfoldable pub history_limit : Text → ℕ
history_limit l = elim (parse_int l) [
  | none ↦ 20
  | some n ↦ if leb_ℤ n (pos 0) then 20 else pos_part n
]

abbrev pub after_history : App → Result (List UrlResult) × World → Response × App
after_history a (ok rows, w) = (write_json 200 (results rows), with_world a w)
after_history a (err e, w) = (internal_error e, with_world a w)

abbrev pub history_of : Env → Option ℤ → Text → App → Response × App
history_of env none limit a = (invalid_id, a)
history_of env (some id) limit a =
    after_history a (url_result_history env (row_id id) (history_limit limit) a.world)

unfoldable pub handle_url_history : Env → Method → Text → Text → App → Response × App
unfolding history_limit
handle_url_history env get_method id limit a = history_of env (parse_int id) limit a
handle_url_history env _ id limit a = (method_not_allowed, a)

abbrev pub after_update_threshold : App → Engine × Result (Unit {0}) × World → Option Error × App
after_update_threshold a (e, ok _, w) = (none, record a { engine = e; world = w })
after_update_threshold a (e, err x, w) = (some x, record a { engine = e; world = w })

-- The loop over the decoded map, in the order that the map yields its keys; it stops at an error.
unfoldable pub set_thresholds : Env → List (Text × Float64) → App → Response × App
set_thresholds env [] a = (write_json 200 (threshold_map a.engine.thresholds), a)
set_thresholds env ((k, v) ∷ rest) a =
    let (e, a') = after_update_threshold a (update_threshold env a.engine k v a.world) in
    elim e [ none ↦ set_thresholds env rest a' | some x ↦ (internal_error x, a') ]

abbrev pub put_thresholds : Env → Option (List (Text × Float64)) → App → Response × App
put_thresholds env none a = (invalid_json, a)
put_thresholds env (some m) a = set_thresholds env m a

unfoldable pub handle_thresholds :
    Env → Method → Option (List (Text × Float64)) → App → Response × App
unfolding set_thresholds
handle_thresholds env get_method body a = (write_json 200 (threshold_map a.engine.thresholds), a)
handle_thresholds env put_method body a = put_thresholds env body a
handle_thresholds env _ body a = (method_not_allowed, a)
