-- ===== src/Alerts/Rounds.antt =====
-- One round of the loop in `Evaluate` of internal/alerts/alerts.go.
use monitoring.Base.{
  if◌then◌else◌, Bool-cases, Option-cases, is_some, of_nat, leb_float, lookup, insert, delete,
  lookup-insert, lookup-delete, Text, text_discrete, ℕ, suc, ◌≡◌, refl, ap, ◌∙◌, inl, inr, ite,
  Bool, true, false, Option, none, some, List, [], ◌∷◌, ◌++◌, map, arith,
}
use monitoring.Storage.{Error, Env, IsReliable, insert_alert, mark_resolved, resolve_alert}
use monitoring.Alerts.Engine.{Check, Progress, alert_at, fire, resolve, evaluate_check}
use monitoring.Alerts.Sync.{InSync, InSync-insert, InSync-delete}

-- Whether a kind is active after a check: a check with no positive threshold leaves it alone.
abbrev pub level : Check → Bool → Bool
level c was = if leb_float c.threshold (of_nat 0) then was else leb_float c.threshold c.value

abbrev pub is_active : Text → List (Text × ℕ) → Bool
is_active k m = is_some (lookup text_discrete k m)

-- The three things that a round can do.
pub data Outcome (env : Env) (c : Check) (p : Progress) (r : Progress × Option Error) : Type 0 where
  stays :
      level c (is_active c.kind p.active) ≡ is_active c.kind p.active
      → r ≡ (p, none)
      → Outcome env c p r
  fires :
      lookup text_discrete c.kind p.active ≡ none
      → level c false ≡ true
      → r ≡ fire env c p
      → Outcome env c p r
  resolves :
      (id : ℕ)
      → lookup text_discrete c.kind p.active ≡ some id
      → level c true ≡ false
      → r ≡ (resolve env c id p, none)
      → Outcome env c p r

pub evaluate_check-Outcome :
    (env : Env) (c : Check) (p : Progress) → Outcome env c p (evaluate_check env c p)
unfolding evaluate_check
evaluate_check-Outcome env c p = elim (Bool-cases (leb_float c.threshold (of_nat 0))) [
  | inl off ↦ stays (rw off) (rw off)
  | inr on ↦ elim (Bool-cases (leb_float c.threshold c.value)) [
    | inl high ↦ elim (Option-cases (lookup text_discrete c.kind p.active)) [
      | inl new ↦ fires new (rw (on, high)) (rw (on, high, new))
      | inr (id, old) ↦ stays (rw (on, high, old)) (rw (on, high, old))
    ]
    | inr low ↦ elim (Option-cases (lookup text_discrete c.kind p.active)) [
      | inl new ↦ stays (rw (on, low, new)) (rw (on, low, new))
      | inr (id, old) ↦ resolves id old (rw (on, low)) (rw (on, low, old))
    ]
  ]
]

-- The progress that a fired alert leaves, if its row is inserted.
abbrev pub fired_progress : Env → Check → Progress → Progress
fired_progress env c p =
    let t = p.world.tables in
    let a = record (alert_at c (env.clock p.world.reads)) { id = t.next_alert } in
    record {
      active = insert text_discrete c.kind t.next_alert p.active;
      fired = p.fired ++ a ∷ [];
      world = record {
        tables = record t { alerts = a ∷ t.alerts; next_alert = suc t.next_alert };
        calls = suc p.world.calls;
        reads = suc p.world.reads;
      };
    }

pub fire-eq :
    (env : Env) (c : Check) (p : Progress)
    → env.faults p.world.calls ≡ none
    → fire env c p ≡ (fired_progress env c p, none)
unfolding fire insert_alert
fire-eq env c p fine = ground arith

abbrev pub resolved_progress : Env → Check → ℕ → Progress → Progress
resolved_progress env c id p =
    let t = p.world.tables in
    record {
      active = delete text_discrete c.kind p.active;
      fired = p.fired;
      world = record {
        tables = record t { alerts = map (mark_resolved id (env.clock p.world.reads)) t.alerts };
        calls = suc p.world.calls;
        reads = suc p.world.reads;
      };
    }

resolve-eq :
    (env : Env) (c : Check) (id : ℕ) (p : Progress)
    → IsReliable env
    → resolve env c id p ≡ resolved_progress env c id p
unfolding resolve resolve_alert
resolve-eq env c id p reliable = ground (arith, reliable p.world.calls)

module _ (env : Env) (c : Check) (p : Progress) (reliable : IsReliable env) where
  -- The three outcomes of a reliable round, with the state that each leaves.
  pub data Round (r : Progress × Option Error) : Type 0 where
    stays :
        level c (is_active c.kind p.active) ≡ is_active c.kind p.active → r ≡ (p, none) → Round r
    fires :
        lookup text_discrete c.kind p.active ≡ none
        → level c false ≡ true
        → r ≡ (fired_progress env c p, none)
        → Round r
    resolves :
        (id : ℕ)
        → lookup text_discrete c.kind p.active ≡ some id
        → level c true ≡ false
        → r ≡ (resolved_progress env c id p, none)
        → Round r

  pub evaluate_check-Round : Round (evaluate_check env c p)
  evaluate_check-Round = elim (evaluate_check-Outcome env c p) [
    | Outcome.stays l e ↦ Round.stays l e
    | Outcome.fires new l e ↦ Round.fires new l (e ∙ fire-eq env c p (reliable p.world.calls))
    | Outcome.resolves id old l e ↦
        Round.resolves id old l (e ∙ ap (λ q. (q, none)) (resolve-eq env c id p reliable))
  ]

  -- A reliable round raises no error.
  pub evaluate_check_ok : (evaluate_check env c p).1 ≡ none
  evaluate_check_ok = elim evaluate_check-Round [
    | Round.stays l e ↦ ap (λ r. r.1) e
    | Round.fires new l e ↦ ap (λ r. r.1) e
    | Round.resolves id old l e ↦ ap (λ r. r.1) e
  ]

  -- It keeps the map and the table in agreement.
  pub evaluate_check-InSync :
      InSync p.active p.world.tables
      → InSync (evaluate_check env c p).0.active (evaluate_check env c p).0.world.tables
  evaluate_check-InSync sync = elim evaluate_check-Round [
    | Round.stays l e ↦ rw e sync
    | Round.fires new l e ↦ rw e (InSync-insert sync _ refl refl new)
    | Round.resolves id old l e ↦ rw e (InSync-delete sync c.kind id _ old)
  ]

  -- It sets the checked kind to its level, and no other.
  pub evaluate_check-level :
      (k : Text)
      → is_active k (evaluate_check env c p).0.active
        ≡ ite (text_discrete c.kind k) (level c (is_active k p.active)) (is_active k p.active)
  evaluate_check-level k = elim evaluate_check-Round [
    | Round.stays l e ↦ rw e (ground arith)
    | Round.fires new l e ↦
        rw e
          (ground (arith, lookup-insert text_discrete c.kind k p.world.tables.next_alert p.active))
    | Round.resolves id old l e ↦
        rw e (ground (arith, lookup-delete text_discrete c.kind k p.active))
  ]
