-- ===== src/UrlCheck/Running.antt =====
-- The goroutines of internal/urlcheck/checker.go: which of them run for an id, and the invariant of
-- the checker's maps.
use monitoring.Base.{
  ◌==◌, if◌then◌else◌, Bool-cases, Option-cases, is_some, length, keep, All, All-imp, lookup,
  lookup-insert, HasApartKeys, insert-HasApartKeys, ℕ, ◌≤◌, ◌<◌, ◌≡◌, refl, inl, inr, Bool, true,
  false, ◌&&◌, not, none, some, List, [], ◌∷◌, arith, ℕ_discrete,
}
use monitoring.Storage.{UrlCheck}
use monitoring.UrlCheck.Checker.{
  Summary, Context, Worker, Checker, history_cap, new_checker, new_summary, ensure_summary,
  start_check,
}

abbrev pub runs : ℕ → Worker → Bool
runs id w = not w.stopped && w.check.id == id

-- The goroutines that were started for an id and not stopped.
abbrev pub running : ℕ → Checker → List Worker
running id c = keep (runs id) c.workers

-- A goroutine that was not stopped is the one that the map `checks` holds for its id.
abbrev pub IsOwned : List (ℕ × ℕ) → Worker → Type 0
IsOwned checks w = w.stopped ≡ false → lookup ℕ_discrete w.check.id checks ≡ some w.handle

pub record IsTidy (c : Checker) : Type 0 where
  pub owned : All (IsOwned c.checks) c.workers
  pub one_id :
      (i j h : ℕ)
      → lookup ℕ_discrete i c.checks ≡ some h
      → lookup ℕ_discrete j c.checks ≡ some h
      → i ≡ j
  pub below : (i h : ℕ) → lookup ℕ_discrete i c.checks ≡ some h → h < c.next_worker
  pub single : (i : ℕ) → length (running i c) ≤ 1
  pub shown :
      (i h : ℕ)
      → lookup ℕ_discrete i c.checks ≡ some h
      → is_some (lookup ℕ_discrete i c.summaries) ≡ true
  pub keys : HasApartKeys c.summaries
  pub bounded :
      (i : ℕ) (s : Summary)
      → lookup ℕ_discrete i c.summaries ≡ some s
      → (s.check.id ≡ i) × (length s.history ≤ history_cap)

pub new_checker-IsTidy : IsTidy new_checker
unfolding new_checker lookup
new_checker-IsTidy = record {
  owned = tt;
  one_id = λ i j h e f. cc;
  below = λ i h e. cc;
  single = λ i. omega arith;
  shown = λ i h e. cc;
  keys = tt;
  bounded = λ i s e. cc;
}

-- With no entry in the map, nothing runs.
pub none_running :
    (id : ℕ) (checks : List (ℕ × ℕ)) (ws : List Worker)
    → All (IsOwned checks) ws
    → lookup ℕ_discrete id checks ≡ none
    → keep (runs id) ws ≡ []
none_running id checks [] o e = refl
none_running id checks (w ∷ ws) o e = elim (Bool-cases (runs id w)) [
  | inl r ↦ absurd (ground (arith, o.0))
  | inr r ↦ rw r (none_running id checks ws o.1 e)
]

pub running-start_check :
    (ctx : Context) (ch : UrlCheck) (c : Checker) (id : ℕ)
    → running id (start_check ctx ch c) ≡ (
        if ch.id == id
        then record { handle = c.next_worker; check = ch; context = ctx; stopped = false }
          ∷ running id c
        else running id c)
unfolding start_check
running-start_check ctx ch c id = ground arith

ensure_summary-HasApartKeys :
    (ch : UrlCheck) (m : List (ℕ × Summary)) → HasApartKeys m → HasApartKeys (ensure_summary ch m)
ensure_summary-HasApartKeys ch m k = elim (Option-cases (lookup ℕ_discrete ch.id m)) [
  | inl e ↦ rw (e, ensure_summary) (insert-HasApartKeys ℕ_discrete ch.id (new_summary ch) m k)
  | inr (s, e) ↦ rw (e, ensure_summary) k
]

pub start_check-IsTidy :
    (ctx : Context) (ch : UrlCheck) (c : Checker)
    → lookup ℕ_discrete ch.id c.checks ≡ none
    → IsTidy c
    → IsTidy (start_check ctx ch c)
unfolding start_check
start_check-IsTidy ctx ch c free t =
    let put = λ (i : ℕ). lookup-insert ℕ_discrete ch.id i c.next_worker c.checks in
    let show = λ (i : ℕ). lookup-insert ℕ_discrete ch.id i (new_summary ch) c.summaries in
    record {
      owned = (
        (λ u. ground (arith, put ch.id)),
        All-imp _ _ c.workers (λ w o. λ u. ground (arith, put w.check.id, o u)) t.owned,
      );
      one_id = λ i j h e f. ground (arith, put i, put j, t.one_id i j h, t.below i h, t.below j h);
      below = λ i h e. ground (arith, put i, t.below i h);
      single = λ i. ground (arith, t.single i, none_running i c.checks c.workers t.owned);
      shown = λ i h e. ground (arith, put i, show i, t.shown i h);
      keys = ensure_summary-HasApartKeys ch c.summaries t.keys;
      bounded = λ i s e. ground (arith, show i, t.bounded i s);
    }
