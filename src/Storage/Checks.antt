-- ===== src/Storage/Checks.antt =====
-- internal/storage/sqlite.go, "URL Checks": the statements on url_checks and url_check_results.
use monitoring.Base.{
  leb, ◌==◌, if◌then◌else◌, is_some, Float64, of_nat, sort_desc, sort_asc, length, take, keep,
  count, Text, text_discrete, ℕ, zero, suc, ite, Bool, false, ◌&&◌, ◌||◌, not, Option, none, some,
  List, [], ◌∷◌, map,
}
use monitoring.Storage.Schema.{UrlCheck, UrlResult, Tables}
use monitoring.Storage.Session.{
  unique_violation, foreign_key_violation, no_rows, Result, ok, err, Env, Action, exec,
}

-- A row other than `id` that has the url: the column is UNIQUE.
unfoldable pub url_taken : ℕ → Text → List UrlCheck → Bool
url_taken id url [] = false
url_taken id url (u ∷ rest) =
    (ite (text_discrete u.url url) (not (u.id == id)) false) || url_taken id url rest

unfoldable pub find_check : ℕ → List UrlCheck → Option UrlCheck
find_check id [] = none
find_check id (u ∷ rest) = if u.id == id then some u else find_check id rest

-- AUTOINCREMENT numbers are above every row's, so no row is excepted here.
unfoldable pub insert_url_check : Env → UrlCheck → Action ℕ
insert_url_check env u = exec env (λ t.
    if url_taken t.next_check u.url t.url_checks
    then err unique_violation
    else ok (
      t.next_check,
      record t {
        url_checks = record u { id = t.next_check } ∷ t.url_checks;
        next_check = suc t.next_check;
      },
    ))

abbrev pub set_columns : UrlCheck → UrlCheck → UrlCheck
set_columns u row = if row.id == u.id then record u { created_at = row.created_at } else row

unfoldable pub update_url_check : Env → UrlCheck → Action (Unit {0})
update_url_check env u = exec env (λ t.
    if is_some (find_check u.id t.url_checks) && url_taken u.id u.url t.url_checks
    then err unique_violation
    else ok (tt, record t { url_checks = map (set_columns u) t.url_checks }))

-- The results of the check go with it: ON DELETE CASCADE, with foreign_keys=ON.
unfoldable pub delete_url_check : Env → ℕ → Action (Unit {0})
delete_url_check env id = exec env (λ t. ok (
  tt,
  record t {
    url_checks = keep (λ (u : UrlCheck). not (u.id == id)) t.url_checks;
    url_check_results = keep (λ (r : UrlResult). not (r.check_id == id)) t.url_check_results;
  },
))

abbrev pub by_created_at : UrlCheck → ℕ
by_created_at u = u.created_at

unfoldable pub list_url_checks : Env → Action (List UrlCheck)
list_url_checks env = exec env (λ t. ok (sort_asc by_created_at t.url_checks, t))

abbrev pub row_or_error : Tables → Option UrlCheck → Result (UrlCheck × Tables)
row_or_error t none = err no_rows
row_or_error t (some u) = ok (u, t)

unfoldable pub get_url_check : Env → ℕ → Action UrlCheck
get_url_check env id = exec env (λ t. row_or_error t (find_check id t.url_checks))

unfoldable pub insert_url_result : Env → UrlResult → Action (Unit {0})
insert_url_result env r = exec env (λ t.
    if is_some (find_check r.check_id t.url_checks)
    then ok (
      tt,
      record t {
        url_check_results = record r { id = t.next_result } ∷ t.url_check_results;
        next_result = suc t.next_result;
      },
    )
    else err foreign_key_violation)

abbrev pub by_checked_at : UrlResult → ℕ
by_checked_at r = r.checked_at

unfoldable pub url_result_history : Env → ℕ → ℕ → Action (List UrlResult)
url_result_history env check_id limit = exec env (λ t. ok (
  take limit (
      sort_desc by_checked_at
        (keep (λ (r : UrlResult). r.check_id == check_id) t.url_check_results)),
  t,
))

-- The rows of a check since a time, and how many of them are up.
abbrev pub since_rows : ℕ → ℕ → List UrlResult → List UrlResult
since_rows check_id since =
    keep (λ (r : UrlResult). r.check_id == check_id && leb since r.checked_at)

abbrev pub is_up : UrlResult → Bool
is_up r = r.up

-- `SUM(up) … / COUNT(*)`: over no rows the answer is NULL, and `pct.Float64` is 0.
abbrev pub ratio : Env → ℕ → ℕ → Float64
ratio env ups zero = of_nat 0
ratio env ups (suc n) = env.percent ups (suc n)

unfoldable pub url_uptime : Env → ℕ → ℕ → Action Float64
url_uptime env check_id since = exec env (λ t.
    let rows = since_rows check_id since t.url_check_results in
    ok (ratio env (count is_up rows) (length rows), t))
