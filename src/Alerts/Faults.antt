-- ===== src/Alerts/Faults.antt =====
-- `Evaluate` of internal/alerts/alerts.go where the database fails: a failed insertion and a failed
-- resolution of an alert.
use monitoring.Base.{
  Option-cases, lookup, delete, lookup-delete, Text, text_discrete, ℕ, suc, ◌≡◌, refl, sym, ap, ◌∙◌,
  inl, inr, true, false, none, some, List, [], ◌∷◌, ◌++◌, arith,
}
use monitoring.Storage.{Error, Env, World, insert_alert, resolve_alert}
use monitoring.Alerts.Engine.{
  AllMetrics, Engine, Check, checks, Progress, fire, resolve, evaluate_check, evaluate_checks,
  evaluate,
}
use monitoring.Alerts.Sync.{open_ids, at_most_one, InSync}
use monitoring.Alerts.Rounds.{level, Outcome, evaluate_check-Outcome, fired_progress, fire-eq}

-- What a failed statement leaves: a clock reading and a call more.
abbrev pub failed_world : World → World
failed_world w = record w { calls = suc w.calls; reads = suc w.reads }

module _ (env : Env) (c : Check) (p : Progress) where
  after_insert_fault :
      (x : Error)
      → lookup text_discrete c.kind p.active ≡ none
      → level c false ≡ true
      → env.faults p.world.calls ≡ some x
      → evaluate_check env c p ≡ (record p { world = failed_world p.world }, some x)
  unfolding fire insert_alert
  after_insert_fault x new high fault = elim (evaluate_check-Outcome env c p) [
    | Outcome.stays l e ↦ ground arith
    | Outcome.fires _ l e ↦ ground arith
    | Outcome.resolves id old l e ↦ ground arith
  ]

  -- Only the insertion of an alert can end the loop.
  fault_of_check :
      (x : Error)
      → (evaluate_check env c p).1 ≡ some x
      → (lookup text_discrete c.kind p.active ≡ none)
        × (level c false ≡ true)
        × (env.faults p.world.calls ≡ some x)
  fault_of_check x failed = elim (evaluate_check-Outcome env c p) [
    | Outcome.stays l e ↦ absurd (ground (arith, e, failed))
    | Outcome.resolves id old l e ↦ absurd (ground (arith, e, failed))
    | Outcome.fires new l e ↦ elim (Option-cases (env.faults p.world.calls)) [
      | inl fine ↦ absurd (ground (arith, e ∙ fire-eq env c p fine, failed))
      | inr (y, fault) ↦ (new, l, ground (arith, after_insert_fault y new l fault, failed))
    ]
  ]

  next_check :
      (cs : List Check)
      → (evaluate_check env c p).1 ≡ none
      → evaluate_checks env (c ∷ cs) p ≡ evaluate_checks env cs (evaluate_check env c p).0
  unfolding evaluate_checks
  next_check cs fine = rw (fine, evaluate_checks) refl

  last_check :
      (cs : List Check) (x : Error)
      → (evaluate_check env c p).1 ≡ some x
      → evaluate_checks env (c ∷ cs) p ≡ ((evaluate_check env c p).0, some x)
  unfolding evaluate_checks
  last_check cs x failed = rw (failed, evaluate_checks) refl

  -- A kind that is not active and is checked high is fired.
  rising :
      lookup text_discrete c.kind p.active ≡ none
      → level c false ≡ true
      → env.faults p.world.calls ≡ none
      → evaluate_check env c p ≡ (fired_progress env c p, none)
  rising new high fine = elim (evaluate_check-Outcome env c p) [
    | Outcome.stays l e ↦ ground arith
    | Outcome.fires _ l e ↦ e ∙ fire-eq env c p fine
    | Outcome.resolves id old l e ↦ ground arith
  ]

  after_resolve_fault :
      (id : ℕ) (x : Error)
      → lookup text_discrete c.kind p.active ≡ some id
      → level c true ≡ false
      → env.faults p.world.calls ≡ some x
      → evaluate_check env c p ≡ (
        record p { active = delete text_discrete c.kind p.active; world = failed_world p.world },
        none,
      )
  unfolding resolve resolve_alert
  after_resolve_fault id x held low fault = elim (evaluate_check-Outcome env c p) [
    | Outcome.stays l e ↦ ground arith
    | Outcome.fires new l e ↦ ground arith
    | Outcome.resolves i old l e ↦ ground arith
  ]

-- How the loop over some checks ends with an error: the checks before `failed` are made, without an
-- error; the one that failed was to fire; and no other is made.
pub record StopsAt (env : Env) (cs : List Check) (p : Progress) (x : Error) : Type 0 where
  pub front : List Check
  pub failed : Check
  pub back : List Check
  pub parts : cs ≡ front ++ failed ∷ back
  pub fine : (evaluate_checks env front p).1 ≡ none
  pub inactive : lookup text_discrete failed.kind (evaluate_checks env front p).0.active ≡ none
  pub high : level failed false ≡ true
  pub fault : env.faults (evaluate_checks env front p).0.world.calls ≡ some x
  pub left : (evaluate_checks env cs p).0 ≡ record (evaluate_checks env front p).0 {
    world = failed_world (evaluate_checks env front p).0.world;
  }

stops_first :
    (env : Env) (c : Check) (cs : List Check) (p : Progress) (x : Error)
    → (evaluate_check env c p).1 ≡ some x
    → StopsAt env (c ∷ cs) p x
unfolding evaluate_checks
stops_first env c cs p x bad =
    let (new, high, fault) = fault_of_check env c p x bad in
    record {
      front = [];
      failed = c;
      back = cs;
      parts = refl;
      fine = refl;
      inactive = new;
      high = high;
      fault = fault;
      left =
          ap (λ r. r.0) (last_check env c p cs x bad)
          ∙ ap (λ r. r.0) (after_insert_fault env c p x new high fault);
    }

evaluate_checks-StopsAt :
    (env : Env) (cs : List Check) (p : Progress) (x : Error)
    → (evaluate_checks env cs p).1 ≡ some x
    → StopsAt env cs p x
unfolding evaluate_checks
evaluate_checks-StopsAt env [] p x bad = cc
evaluate_checks-StopsAt env (c ∷ cs) p x bad = elim (Option-cases (evaluate_check env c p).1) [
  | inr (y, e) ↦
      stops_first env c cs p x (e ∙ sym (ap (λ r. r.1) (last_check env c p cs y e)) ∙ bad)
  | inl e ↦
      let s =
        evaluate_checks-StopsAt env cs (evaluate_check env c p).0 x
          (sym (ap (λ r. r.1) (next_check env c p cs e)) ∙ bad) in
      let same = next_check env c p s.front e in
      record {
        front = c ∷ s.front;
        failed = s.failed;
        back = s.back;
        parts = ap (◌∷◌ c) s.parts;
        fine = rw same s.fine;
        inactive = rw same s.inactive;
        high = s.high;
        fault = rw same s.fault;
        left = rw same (ap (λ r. r.0) (next_check env c p cs e) ∙ s.left);
      }
]

-- If `Evaluate` has an error, then the error is that of the insertion of an alert, for one of its
-- checks: that check was at a positive threshold or above and its kind was not active; the checks
-- before it were all made without an error, and what they did to the map, the alerts fired and
-- the tables is what `Evaluate` leaves; the checks behind it were not made. In particular no
-- failure of another statement ends it.
pub evaluate-StopsAt :
    (env : Env) (e : Engine) (m : AllMetrics) (w : World) (x : Error)
    → (evaluate env e m w).1 ≡ some x
    → StopsAt env (checks e m) (record { active = e.active; fired = []; world = w }) x
unfolding evaluate
evaluate-StopsAt env e m w x bad = evaluate_checks-StopsAt env (checks e m) _ x bad

open_ids-rising :
    (env : Env) (d : Check) (q : Progress) (kind : Text)
    → lookup text_discrete kind q.active ≡ none
    → d.kind ≡ kind
    → level d false ≡ true
    → env.faults q.world.calls ≡ none
    → open_ids kind (evaluate_check env d q).0.world.tables.alerts
      ≡ q.world.tables.next_alert ∷ open_ids kind q.world.tables.alerts
unfolding open_ids
open_ids-rising env d q kind gone same high fine =
    rw (rising env d q (rw same gone) high fine) (ground arith)

-- Let the map and the table agree, and let a check find its kind active and its value below a
-- positive threshold. If the update that resolves the alert fails, then the round raises no
-- error, the map forgets the kind and the row stays open; and the next check of that kind that is
-- high, its insertion succeeding, makes a second open row.
pub resolve_fault :
    (env : Env) (c : Check) (p : Progress) (id : ℕ) (x : Error)
    → InSync p.active p.world.tables
    → lookup text_discrete c.kind p.active ≡ some id
    → level c true ≡ false
    → env.faults p.world.calls ≡ some x
    → let (p', r) = evaluate_check env c p in
      (r ≡ none)
      × (lookup text_discrete c.kind p'.active ≡ none)
      × (open_ids c.kind p'.world.tables.alerts ≡ id ∷ [])
      × ((d : Check)
          → d.kind ≡ c.kind
          → level d false ≡ true
          → env.faults p'.world.calls ≡ none
          → open_ids c.kind (evaluate_check env d p').0.world.tables.alerts
            ≡ p'.world.tables.next_alert ∷ id ∷ [])
resolve_fault env c p id x sync held low fault =
    let gone = lookup-delete text_discrete c.kind c.kind p.active in
    let still = sync.agree c.kind ∙ ap at_most_one held in
    rw (after_resolve_fault env c p id x held low fault) (
      refl,
      ground (arith, gone),
      still,
      λ d same high fine.
          open_ids-rising env d _ c.kind (ground (arith, gone)) same high fine
          ∙ ap (◌∷◌ p.world.tables.next_alert) still,
    )
