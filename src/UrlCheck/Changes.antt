-- ===== src/UrlCheck/Changes.antt =====
-- The invariant of the checker through `Start`, `Add`, `Update`, `Remove` and `doAndStore` of
-- internal/urlcheck/checker.go, and what runs afterwards.
use monitoring.Base.{
  ◌==◌, if◌then◌else◌, Option-cases, is_some, if_ind, Float64, length, length-take, lookup,
  lookup-insert, lookup-delete, HasApartKeys, insert-HasApartKeys, delete-HasApartKeys, fits, ℕ,
  ◌≤◌, ◌≡◌, refl, ◌∙◌, inl, inr, true, false, none, some, List, [], ◌∷◌, arith, ℕ_discrete,
}
use monitoring.Storage.{UrlCheck}
use monitoring.UrlCheck.Checker.{
  CheckResult, Summary, Context, Worker, Checker, history_cap, start_check, stop_check,
  start_enabled, set_summary_check, restart_check, forget,
}
use monitoring.UrlCheck.Probe.{push_result, store_result}
use monitoring.UrlCheck.Running.{running, IsTidy, running-start_check, start_check-IsTidy}
use monitoring.UrlCheck.Stopping.{running-stop_check, stop_check-IsTidy, lookup-stop_check}

-- The goroutine that a start leaves for a check.
abbrev pub started : Context → UrlCheck → ℕ → List Worker
started ctx ch h =
    if ch.enabled
    then record { handle = h; check = ch; context = ctx; stopped = false } ∷ []
    else []

-- A change of the summaries that keeps what the invariant asks of them.
pub summaries-IsTidy :
    (c : Checker) (m : List (ℕ × Summary))
    → IsTidy c
    → ((i : ℕ)
        → is_some (lookup ℕ_discrete i c.summaries) ≡ true
        → is_some (lookup ℕ_discrete i m) ≡ true)
    → ((i : ℕ) (s : Summary)
        → lookup ℕ_discrete i m ≡ some s
        → (s.check.id ≡ i) × (length s.history ≤ history_cap))
    → HasApartKeys m
    → IsTidy (record c { summaries = m })
summaries-IsTidy c m t kept fits keys = record {
  owned = t.owned;
  one_id = t.one_id;
  below = t.below;
  single = t.single;
  shown = λ i h e. kept i (t.shown i h e);
  keys = keys;
  bounded = fits;
}

set_summary_check-IsTidy :
    (ch : UrlCheck) (c : Checker)
    → IsTidy c
    → IsTidy (record c { summaries = set_summary_check ch c.summaries })
set_summary_check-IsTidy ch c t = elim (Option-cases (lookup ℕ_discrete ch.id c.summaries)) [
  | inl e ↦ rw (e, set_summary_check) t
  | inr (s, e) ↦
      let put = λ (i : ℕ). lookup-insert ℕ_discrete ch.id i (record s { check = ch }) c.summaries in
      rw (e, set_summary_check)
        (summaries-IsTidy c _ t (λ i k. ground (arith, put i))
          (λ i r k. ground (arith, put i, t.bounded i r, t.bounded ch.id s e))
          (insert-HasApartKeys ℕ_discrete ch.id (record s { check = ch }) c.summaries t.keys))
]

pub start_enabled-IsTidy :
    (ctx : Context) (ch : UrlCheck) (c : Checker)
    → lookup ℕ_discrete ch.id c.checks ≡ none
    → IsTidy c
    → IsTidy (start_enabled ctx ch c)
start_enabled-IsTidy ctx ch c free t =
    if_ind IsTidy ch.enabled (start_check ctx ch c) c (λ e. start_check-IsTidy ctx ch c free t)
      (λ e. t)

running-start_enabled :
    (ctx : Context) (ch : UrlCheck) (c : Checker) (i : ℕ)
    → running ch.id c ≡ []
    → running i (start_enabled ctx ch c)
      ≡ (if ch.id == i then started ctx ch c.next_worker else running i c)
running-start_enabled ctx ch c i idle = ground (arith, running-start_check ctx ch c i)

pub restart_check-IsTidy :
    (ctx : Context) (ch : UrlCheck) (c : Checker) → IsTidy c → IsTidy (restart_check ctx ch c)
unfolding restart_check
restart_check-IsTidy ctx ch c t =
    start_enabled-IsTidy ctx ch _ (lookup-stop_check ch.id c)
      (set_summary_check-IsTidy ch (stop_check ch.id c) (stop_check-IsTidy ch.id c t))

-- Nothing runs for an id that was stopped, and no number is given out.
stopped_idle : (id : ℕ) (c : Checker) → IsTidy c → running id (stop_check id c) ≡ []
stopped_idle id c t = running-stop_check id id c t ∙ ground arith

next_worker-stop_check : (id : ℕ) (c : Checker) → (stop_check id c).next_worker ≡ c.next_worker
unfolding stop_check
next_worker-stop_check id c = ground arith

pub running-restart_check :
    (ctx : Context) (ch : UrlCheck) (c : Checker) (i : ℕ)
    → IsTidy c
    → running i (restart_check ctx ch c)
      ≡ (if ch.id == i then started ctx ch c.next_worker else running i c)
unfolding restart_check
running-restart_check ctx ch c i t =
    running-start_enabled ctx ch
      (record (stop_check ch.id c) {
        summaries = set_summary_check ch (stop_check ch.id c).summaries;
      })
      i (stopped_idle ch.id c t)
    ∙ ground (arith, running-stop_check ch.id i c t, next_worker-stop_check ch.id c)

pub forget-IsTidy : (id : ℕ) (c : Checker) → IsTidy c → IsTidy (forget id c)
unfolding forget
forget-IsTidy id c t =
    let s = stop_check-IsTidy id c t in
    let cut = λ (i : ℕ). lookup-delete ℕ_discrete id i (stop_check id c).summaries in
    record {
      owned = s.owned;
      one_id = s.one_id;
      below = s.below;
      single = s.single;
      shown = λ i h e. ground (arith, cut i, s.shown i h e, lookup-stop_check id c);
      keys = delete-HasApartKeys ℕ_discrete id (stop_check id c).summaries s.keys;
      bounded = λ i r e. ground (arith, cut i, s.bounded i r);
    }

pub running-forget :
    (id i : ℕ) (c : Checker)
    → IsTidy c
    → running i (forget id c) ≡ (if id == i then [] else running i c)
unfolding forget
running-forget id i c t = running-stop_check id i c t

push_result-fits :
    (r : CheckResult) (uptime : Float64) (s : Summary)
    → ((push_result r uptime s).check.id ≡ s.check.id)
      × (length (push_result r uptime s).history ≤ history_cap)
unfolding push_result
push_result-fits r uptime s = (refl, omega (arith, length-take history_cap (r ∷ s.history)))

pub store_result-IsTidy :
    (r : CheckResult) (uptime : Float64) (c : Checker)
    → IsTidy c
    → IsTidy (record c { summaries = store_result r uptime c.summaries })
store_result-IsTidy r uptime c t = elim (Option-cases (lookup ℕ_discrete r.check_id c.summaries)) [
  | inl e ↦ rw (e, store_result) t
  | inr (s, e) ↦
      let put =
        λ (i : ℕ). lookup-insert ℕ_discrete r.check_id i (push_result r uptime s) c.summaries in
      rw (e, store_result)
        (summaries-IsTidy c _ t (λ i k. ground (arith, put i))
          (λ i q k.
            ground
              (arith, put i, t.bounded i q, t.bounded r.check_id s e, push_result-fits r uptime s))
          (insert-HasApartKeys ℕ_discrete r.check_id (push_result r uptime s) c.summaries t.keys))
]
