-- ===== src/UrlCheck/Probe.antt =====
-- internal/urlcheck/checker.go: one check of a URL (`doCheck`, `doAndStore`) and the ticker and the
-- timeout that it runs under. What the HTTP client answers is an argument.
use monitoring.Base.{
  ltb, if◌then◌else◌, Float64, of_nat, length, take, lookup, insert, Text, ℤ, pos, negsuc, pos_part,
  neg_part, leb_ℤ, ltb_ℤ, ℕ, suc, ◌+◌, ◌-◌, ◌*◌, ◌%◌, ◌^◌, false, none, some, List, [], ◌∷◌, ◌++◌,
  ℕ_discrete,
}
use monitoring.Storage.{
  UrlCheck, UrlResult, Result, ok, err, Env, World, insert_url_result, url_uptime,
}
use monitoring.UrlCheck.Checker.{CheckResult, Summary, Checker, results_cap, history_cap, start}

-- What `http.NewRequestWithContext` and `client.Do` come to: an error of either, or a response.
pub data Answer : Type 0 where
  bad_request : Text → Answer
  no_response : Text → Answer
  responded : ℕ → ℕ → Answer

-- `doCheck`: a response is up below status 400. `latency` is the time that `Do` took.
unfoldable pub do_check : ℕ → UrlCheck → Answer → CheckResult
do_check start ch (bad_request e) = record {
  check_id = ch.id;
  checked_at = start;
  up = false;
  status_code = none;
  latency_ms = none;
  error = some e;
  url = [];
  label = [];
}
do_check start ch (no_response e) = record {
  check_id = ch.id;
  checked_at = start;
  up = false;
  status_code = none;
  latency_ms = none;
  error = some e;
  url = [];
  label = [];
}
do_check start ch (responded code latency) = record {
  check_id = ch.id;
  checked_at = start;
  up = ltb code 400;
  status_code = some code;
  latency_ms = some latency;
  error = none;
  url = [];
  label = [];
}

abbrev pub row_of : CheckResult → UrlResult
row_of r = record {
  id = 0;
  check_id = r.check_id;
  checked_at = r.checked_at;
  up = r.up;
  status_code = r.status_code;
  latency_ms = r.latency_ms;
  error = r.error;
}

-- The zero value where the error is dropped: `uptime, _ := …`.
abbrev pub value_or_zero : Result Float64 → Float64
value_or_zero (ok v) = v
value_or_zero (err e) = of_nat 0

unfoldable pub push_result : CheckResult → Float64 → Summary → Summary
push_result r uptime s = record s {
  last_result = some r;
  uptime_pct = uptime;
  history = take history_cap (r ∷ s.history);
}

abbrev pub store_result : CheckResult → Float64 → List (ℕ × Summary) → List (ℕ × Summary)
store_result r uptime m = elim (lookup ℕ_discrete r.check_id m) [
  | none ↦ m
  | some s ↦ insert ℕ_discrete r.check_id (push_result r uptime s) m
]

-- `select { case c.ResultCh <- result: default: }`
abbrev pub send_result : CheckResult → List CheckResult → List CheckResult
send_result r q = if ltb (length q) results_cap then q ++ r ∷ [] else q

abbrev pub day : ℕ
day = 86400

-- `doAndStore`: both statements may fail, and neither error is looked at.
unfoldable pub do_and_store : Env → UrlCheck → Answer → Checker → World → Checker × World
unfolding do_check push_result
do_and_store env ch answer c w =
    let start = env.clock w.reads in
    let r = record (do_check start ch answer) { url = ch.url; label = ch.label } in
    let (_, w1) = insert_url_result env (row_of r) (record w { reads = suc w.reads }) in
    let since = env.clock w1.reads - day in
    let (uptime, w2) = url_uptime env ch.id since (record w1 { reads = suc w1.reads }) in
    (
      record c {
        summaries = store_result r (value_or_zero uptime) c.summaries;
        results = send_result r c.results;
      },
      w2,
    )

-- `int64` arithmetic wraps.
unfoldable pub wrap64 : ℤ → ℤ
wrap64 a =
    let r = (pos_part a + (2 ^ 64 - neg_part a % 2 ^ 64)) % 2 ^ 64 in
    if ltb r (2 ^ 63) then pos r else negsuc (2 ^ 64 - 1 - r)

abbrev pub scale : ℕ → ℤ → ℤ
scale k (pos n) = pos (n * k)
scale k (negsuc n) = negsuc (suc n * k - 1)

abbrev pub nanoseconds : ℕ
nanoseconds = 1000000000

-- `time.Duration(seconds) * time.Second`
unfoldable pub duration : ℤ → ℤ
unfolding wrap64
duration seconds = wrap64 (scale nanoseconds seconds)

-- `runCheck`: the ticker's interval is a second at least.
unfoldable pub interval : UrlCheck → ℤ
unfolding duration
interval ch =
    let d = duration ch.interval_seconds in if ltb_ℤ d (pos nanoseconds) then pos nanoseconds else d

-- `doCheck`: a timeout that is not positive stands for ten seconds.
unfoldable pub timeout : UrlCheck → ℤ
unfolding duration
timeout ch =
    let d = duration ch.timeout_seconds in if leb_ℤ d (pos 0) then pos (10 * nanoseconds) else d
