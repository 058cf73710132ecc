-- ===== src/UrlCheck/Stopping.antt =====
-- `stopCheck`, `Update` and `Remove` of internal/urlcheck/checker.go: what stops, and what goes on.
use monitoring.Base.{
  ◌==◌, if◌then◌else◌, Option-cases, keep, All, lookup, delete, lookup-delete, ℕ, ◌≡◌, refl, ◌≢◌,
  inl, inr, none, some, List, [], ◌∷◌, map, arith, ℕ_discrete,
}
use monitoring.UrlCheck.Checker.{Worker, Checker, stop_worker, stop_check}
use monitoring.UrlCheck.Running.{runs, running, IsOwned, IsTidy, none_running}

-- A stopped handle is that of the id's own goroutine, and of no other id's.
keep-stop_worker_self :
    (id h : ℕ) (checks : List (ℕ × ℕ)) (ws : List Worker)
    → lookup ℕ_discrete id checks ≡ some h
    → All (IsOwned checks) ws
    → keep (runs id) (map (stop_worker h) ws) ≡ []
keep-stop_worker_self id h checks [] e o = refl
keep-stop_worker_self id h checks (w ∷ ws) e o =
    ground (arith, keep-stop_worker_self id h checks ws e o.1, o.0)

keep-stop_worker_other :
    (i j h : ℕ) (c : Checker) (ws : List Worker)
    → IsTidy c
    → lookup ℕ_discrete i c.checks ≡ some h
    → All (IsOwned c.checks) ws
    → i ≢ j
    → keep (runs j) (map (stop_worker h) ws) ≡ keep (runs j) ws
keep-stop_worker_other i j h c [] t e o ne = refl
keep-stop_worker_other i j h c (w ∷ ws) t e o ne =
    ground (arith, keep-stop_worker_other i j h c ws t e o.1 ne, o.0, t.one_id i j h)

IsOwned-stop_worker :
    (id h : ℕ) (checks : List (ℕ × ℕ)) (ws : List Worker)
    → lookup ℕ_discrete id checks ≡ some h
    → All (IsOwned checks) ws
    → All (IsOwned (delete ℕ_discrete id checks)) (map (stop_worker h) ws)
IsOwned-stop_worker id h checks [] e o = tt
IsOwned-stop_worker id h checks (w ∷ ws) e o = (
  (λ u. ground (arith, lookup-delete ℕ_discrete id w.check.id checks, o.0)),
  IsOwned-stop_worker id h checks ws e o.1,
)

-- For a tidy checker, `stopCheck` stops what runs for its id and nothing else.
pub running-stop_check :
    (id i : ℕ) (c : Checker)
    → IsTidy c
    → running i (stop_check id c) ≡ (if id == i then [] else running i c)
unfolding stop_check
running-stop_check id i c t = elim (Option-cases (lookup ℕ_discrete id c.checks)) [
  | inl e ↦ rw (e, stop_check) (ground (arith, none_running id c.checks c.workers t.owned e))
  | inr (h, e) ↦
      rw (e, stop_check)
        (ground (
          arith,
          keep-stop_worker_self id h c.checks c.workers e t.owned,
          keep-stop_worker_other id i h c c.workers t e t.owned,
        ))
]

pub stop_check-IsTidy : (id : ℕ) (c : Checker) → IsTidy c → IsTidy (stop_check id c)
unfolding stop_check
stop_check-IsTidy id c t = elim (Option-cases (lookup ℕ_discrete id c.checks)) [
  | inl e ↦ rw (e, stop_check) t
  | inr (h, e) ↦
      let cut = λ (i : ℕ). lookup-delete ℕ_discrete id i c.checks in
      rw (e, stop_check)
        (record {
          owned = IsOwned-stop_worker id h c.checks c.workers e t.owned;
          one_id = λ i j k f g. ground (arith, cut i, cut j, t.one_id i j k);
          below = λ i k f. ground (arith, cut i, t.below i k);
          single = λ i. ground (
            arith,
            t.single i,
            keep-stop_worker_self id h c.checks c.workers e t.owned,
            keep-stop_worker_other id i h c c.workers t e t.owned,
          );
          shown = λ i k f. ground (arith, cut i, t.shown i k);
          keys = t.keys;
          bounded = t.bounded;
        })
]

pub lookup-stop_check :
    (id : ℕ) (c : Checker) → lookup ℕ_discrete id (stop_check id c).checks ≡ none
unfolding stop_check
lookup-stop_check id c = elim (Option-cases (lookup ℕ_discrete id c.checks)) [
  | inl e ↦ rw (e, stop_check) e
  | inr (h, e) ↦ rw (e, stop_check) (ground (arith, lookup-delete ℕ_discrete id id c.checks))
]
