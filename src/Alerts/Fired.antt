-- ===== src/Alerts/Fired.antt =====
-- The alerts that `Evaluate` of internal/alerts/alerts.go returns.
use mathlib.Core.List.{map-append, append_assoc, append-nil}
use mathlib.Core.Path.{ap₂}
use monitoring.Base.{
  keep, All, Apart, Text, ℕ, ◌≡◌, refl, sym, ap, ◌∙◌, ◌≢◌, Bool, true, false, ◌&&◌, not, List, [],
  ◌∷◌, ◌++◌, map, arith,
}
use monitoring.Storage.{Alert, Env, World, IsReliable}
use monitoring.Alerts.Engine.{
  AllMetrics, Engine, Check, checks, Progress, evaluate_check, evaluate_checks, evaluate,
}
use monitoring.Alerts.Rounds.{
  level, is_active, Round, evaluate_check-Round, evaluate_check_ok, evaluate_check-level,
}
use monitoring.Alerts.Kinds.{kind, HasKeys, checks-Apart}

-- What an alert says of the check that fired it.
abbrev pub report : Alert → Check
report a = record { kind = a.kind; value = a.value; threshold = a.threshold; msg = a.message }

-- A check that finds its kind inactive and wants it active.
abbrev pub rises : List (Text × ℕ) → Check → Bool
rises active c = not (is_active c.kind active) && level c false

abbrev when : Bool → Check → List Check
when true c = c ∷ []
when false c = []

module _ (env : Env) (reliable : IsReliable env) where
  round-fired :
      (c : Check) (p : Progress)
      → map report (evaluate_check env c p).0.fired
        ≡ map report p.fired ++ when (rises p.active c) c
  round-fired c p = elim (evaluate_check-Round env c p reliable) [
    | Round.stays l e ↦ rw e (ground (arith, append-nil (map report p.fired)))
    | Round.fires new l e ↦ rw e (simp map-append (ground arith))
    | Round.resolves id old l e ↦ rw e (ground (arith, append-nil (map report p.fired)))
  ]

  -- A round leaves the other kinds as they are.
  keep-rises :
      (c : Check) (p : Progress) (cs : List Check)
      → All (λ d. kind c ≢ kind d) cs
      → keep (rises (evaluate_check env c p).0.active) cs ≡ keep (rises p.active) cs
  keep-rises c p [] h = refl
  keep-rises c p (d ∷ cs) h =
      ground (arith, evaluate_check-level env c p reliable d.kind, keep-rises c p cs h.1)

  when-keep :
      (c : Check) (p : Progress) (cs : List Check)
      → when (rises p.active c) c ++ keep (rises p.active) cs ≡ keep (rises p.active) (c ∷ cs)
  when-keep c p cs = ground arith

  evaluate_checks-fired :
      (cs : List Check) (p : Progress)
      → Apart kind cs
      → map report (evaluate_checks env cs p).0.fired
        ≡ map report p.fired ++ keep (rises p.active) cs
  unfolding evaluate_checks
  evaluate_checks-fired [] p h = sym (append-nil _)
  evaluate_checks-fired (c ∷ cs) p h =
      rw (evaluate_check_ok env c p reliable, evaluate_checks)
        (evaluate_checks-fired cs (evaluate_check env c p).0 h.1
          ∙ ap₂ ◌++◌ (round-fired c p) (keep-rises c p cs h.0)
          ∙ append_assoc (map report p.fired) (when (rises p.active c) c) _
          ∙ ap (◌++◌ (map report p.fired)) (when-keep c p cs))

  -- If all statements succeed, no two disks share a mount point and no two URLs an id, then the
  -- alerts that `Evaluate` returns report, in the order of the checks, just those checks whose
  -- kind was not active before and whose value is at a positive threshold or above.
  pub evaluate-fired :
      (e : Engine) (m : AllMetrics) (w : World)
      → HasKeys m
      → map report (evaluate env e m w).0.fired ≡ keep (rises e.active) (checks e m)
  unfolding evaluate
  evaluate-fired e m w keys = evaluate_checks-fired (checks e m) _ (checks-Apart e m keys)
