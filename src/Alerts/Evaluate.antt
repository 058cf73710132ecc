-- ===== src/Alerts/Evaluate.antt =====
-- `Evaluate` of internal/alerts/alerts.go as a whole, beside an abstract account of it that keeps one
-- Boolean per kind.
use monitoring.Base.{Text, text_discrete, ◌≡◌, refl, ap, ◌∙◌, ite, Bool, none, List, [], ◌∷◌}
use monitoring.Storage.{Env, World, IsReliable}
use monitoring.Alerts.Engine.{
  AllMetrics, Engine, Check, checks, Progress, evaluate_check, evaluate_checks, evaluate,
}
use monitoring.Alerts.Sync.{InSync}
use monitoring.Alerts.Rounds.{
  level, is_active, evaluate_check_ok, evaluate_check-InSync, evaluate_check-level,
}

-- The abstract engine: each kind is a Boolean, which the checks of that kind set in turn.
unfoldable pub expected : Text → List Check → Bool → Bool
expected k [] was = was
expected k (c ∷ cs) was = expected k cs (ite (text_discrete c.kind k) (level c was) was)

module _ (env : Env) (reliable : IsReliable env) where
  evaluate_checks_ok : (cs : List Check) (p : Progress) → (evaluate_checks env cs p).1 ≡ none
  unfolding evaluate_checks
  evaluate_checks_ok [] p = refl
  evaluate_checks_ok (c ∷ cs) p =
      rw (evaluate_check_ok env c p reliable, evaluate_checks)
        (evaluate_checks_ok cs (evaluate_check env c p).0)

  evaluate_checks-InSync :
      (cs : List Check) (p : Progress)
      → InSync p.active p.world.tables
      → InSync (evaluate_checks env cs p).0.active (evaluate_checks env cs p).0.world.tables
  unfolding evaluate_checks
  evaluate_checks-InSync [] p sync = sync
  evaluate_checks-InSync (c ∷ cs) p sync =
      rw (evaluate_check_ok env c p reliable, evaluate_checks)
        (evaluate_checks-InSync cs (evaluate_check env c p).0
          (evaluate_check-InSync env c p reliable sync))

  evaluate_checks-level :
      (k : Text) (cs : List Check) (p : Progress)
      → is_active k (evaluate_checks env cs p).0.active ≡ expected k cs (is_active k p.active)
  unfolding evaluate_checks expected
  evaluate_checks-level k [] p = refl
  evaluate_checks-level k (c ∷ cs) p =
      rw (evaluate_check_ok env c p reliable, evaluate_checks)
        (evaluate_checks-level k cs (evaluate_check env c p).0
          ∙ ap (expected k cs) (evaluate_check-level env c p reliable k))

  -- A reliable run raises no error.
  pub evaluate_ok : (e : Engine) (m : AllMetrics) (w : World) → (evaluate env e m w).1 ≡ none
  unfolding evaluate
  evaluate_ok e m w = evaluate_checks_ok (checks e m) _

  -- If all statements succeed, a run of `Evaluate` keeps the agreement of the map of active
  -- alerts with the open alerts of the table.
  pub evaluate-InSync :
      (e : Engine) (m : AllMetrics) (w : World)
      → InSync e.active w.tables
      → let (p, _) = evaluate env e m w in InSync p.active p.world.tables
  unfolding evaluate
  evaluate-InSync e m w sync = evaluate_checks-InSync (checks e m) _ sync

  -- If all statements succeed, `Evaluate` refines the abstract engine that keeps one Boolean per
  -- kind: whether a kind is active afterwards is what its own checks, in turn, make of whether it
  -- was active before, also where several checks share the kind.
  pub evaluate-expected :
      (e : Engine) (m : AllMetrics) (w : World) (k : Text)
      → is_active k (evaluate env e m w).0.active ≡ expected k (checks e m) (is_active k e.active)
  unfolding evaluate
  evaluate-expected e m w k = evaluate_checks-level k (checks e m) _
