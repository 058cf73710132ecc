-- ===== src/UrlCheck/Changed.antt =====
-- `Update`, `Remove` and `doAndStore` of internal/urlcheck/checker.go on their every branch, and the
-- ticker of `runCheck`.
use monitoring.Base.{
  ◌==◌, if◌then◌else◌, Bool-cases, Option-cases, is_some, lookup-delete, ℤ, pos, ◌≤ℤ◌, ltb_ℤ, ℕ,
  ◌*◌, ◌≤◌, ◌≡◌, refl, inl, inr, ◌&&◌, none, [], arith, ℕ_discrete,
}
use monitoring.Storage.{
  UrlCheck, Error, ok, err, Env, World, exec, url_taken, find_check, update_url_check,
}
use monitoring.UrlCheck.Checker.{
  Context, Checker, stop_check, after_update, update, forget, remove, get_summary,
}
use monitoring.UrlCheck.Probe.{Answer, do_and_store, wrap64, nanoseconds, duration, interval}
use monitoring.UrlCheck.Running.{running, IsTidy}
use monitoring.UrlCheck.Changes.{
  started, running-restart_check, running-forget, store_result-IsTidy,
}

-- For a tidy checker: if `Update` succeeds, then what runs for the check's id is one new
-- goroutine with the new settings if the check is enabled and nothing otherwise, and what runs
-- for the other ids goes on; if it fails, the checker and the tables are as before.
pub running-update :
    (env : Env) (ctx : Context) (ch : UrlCheck) (c : Checker) (w : World)
    → IsTidy c
    → let (c', r, w') = update env ctx ch c w in
      ((r ≡ ok tt)
        → (i : ℕ)
        → running i c' ≡ (if ch.id == i then started ctx ch c.next_worker else running i c))
      × ((x : Error) → r ≡ err x → (c' ≡ c) × (w'.tables ≡ w.tables))
unfolding update update_url_check
running-update env ctx ch c w t = elim (Option-cases (env.faults w.calls)) [
  | inr (x, e) ↦
      rw (e, update, after_update, update_url_check, exec)
        ((λ done i. ground arith), λ y f. (refl, refl))
  | inl e ↦
      elim (Bool-cases (
        is_some (find_check ch.id w.tables.url_checks)
        && url_taken ch.id ch.url w.tables.url_checks)) [
          | inl f ↦
              rw (e, f, update, after_update, update_url_check, exec)
                ((λ done i. ground arith), λ y g. (refl, refl))
          | inr f ↦
              rw (e, f, update, after_update, update_url_check, exec)
                ((λ done i. running-restart_check ctx ch c i t), λ y g. ground arith)
        ]
]

-- For a tidy checker, `Remove` leaves nothing running for its id and no summary of it, and leaves
-- what runs for the other ids and their summaries as they are, whether or not the row can be
-- deleted.
pub running-remove :
    (env : Env) (id : ℕ) (c : Checker) (w : World) (i : ℕ)
    → IsTidy c
    → let (c', r, w') = remove env id c w in
      (running i c' ≡ (if id == i then [] else running i c))
      × (get_summary i c' ≡ (if id == i then none else get_summary i c))
unfolding remove get_summary forget stop_check
running-remove env id c w i t =
    (running-forget id i c t, ground (arith, lookup-delete ℕ_discrete id i c.summaries))

module _ (env : Env) (ch : UrlCheck) (answer : Answer) where
  pub do_and_store-IsTidy :
      (c : Checker) (w : World) → IsTidy c → IsTidy (do_and_store env ch answer c w).0
  unfolding do_and_store
  do_and_store-IsTidy c w t =
      let s = store_result-IsTidy _ _ c t in
      record {
        owned = s.owned;
        one_id = s.one_id;
        below = s.below;
        single = s.single;
        shown = s.shown;
        keys = s.keys;
        bounded = s.bounded;
      }

-- What the ticker is given, whatever the duration is.
clamp_low : (d : ℤ) → pos nanoseconds ≤ℤ (if ltb_ℤ d (pos nanoseconds) then pos nanoseconds else d)
clamp_low d = elim (Bool-cases (ltb_ℤ d (pos nanoseconds))) [
  | inl e ↦ rw e (omega arith)
  | inr e ↦ rw e (ground arith)
]

duration-exact : (n : ℕ) → n ≤ 9223372036 → duration (pos n) ≡ pos (n * nanoseconds)
unfolding duration wrap64
duration-exact n h = ground arith

-- The interval of `runCheck` is a second at least, also where the product overflows an int64 of
-- nanoseconds; for 1 to 9223372036 seconds it is exactly what the check asks for.
pub interval-exact :
    (ch : UrlCheck)
    → (pos nanoseconds ≤ℤ interval ch)
      × ((n : ℕ)
          → ch.interval_seconds ≡ pos n
          → 1 ≤ n
          → n ≤ 9223372036
          → interval ch ≡ pos (n * nanoseconds))
unfolding interval
interval-exact ch = (
  clamp_low (duration ch.interval_seconds),
  λ n e low high. rw (e, interval) (rw (duration-exact n high) (ground arith)),
)
