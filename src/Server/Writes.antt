-- ===== src/Server/Writes.antt =====
-- What `Evaluate`, the handlers of alerts and thresholds and `Purge` leave as it is of url_checks, and
-- what the checker leaves as it is of alerts.
use monitoring.Base.{
  Option-cases, if_ind, Float64, of_nat, leb_float, lookup, Text, text_discrete, ℕ, inl, inr,
  Option, none, some, List, [], ◌∷◌, arith,
}
use monitoring.Storage.{
  UrlCheck, UrlResult, Error, Env, World, insert_alert, resolve_alert, acknowledge_alert,
  set_threshold, purge, insert_url_check, update_url_check, delete_url_check, get_url_check,
  insert_url_result, url_uptime,
}
use monitoring.Alerts.Engine.{
  AllMetrics, Engine, Check, checks, Progress, fire, resolve, evaluate_check, evaluate_checks,
  evaluate,
}
use monitoring.Server.Frames.{
  SameAlerts, SameChecks, SameChecks-trans, SameBoth, untouched, SameBoth-refl,
}

module _ (env : Env) where
  fire-SameChecks :
      (c : Check) (p : Progress) → SameChecks p.world.tables (fire env c p).0.world.tables
  unfolding fire insert_alert
  fire-SameChecks c p = record { rows = ground arith; next = ground arith }

  resolve-SameChecks :
      (c : Check) (id : ℕ) (p : Progress)
      → SameChecks p.world.tables (resolve env c id p).world.tables
  unfolding resolve resolve_alert
  resolve-SameChecks c id p = record { rows = ground arith; next = ground arith }

  -- What a round may leave of url_checks.
  abbrev KeepsChecks : Progress → Progress × Option Error → Type 0
  KeepsChecks p x = SameChecks p.world.tables x.0.world.tables

  above-KeepsChecks :
      (c : Check) (p : Progress) (held : Option ℕ)
      → KeepsChecks p (elim held [ some id ↦ (p, none) | none ↦ fire env c p ])
  above-KeepsChecks c p none = fire-SameChecks c p
  above-KeepsChecks c p (some id) = SameBoth-refl.1

  below-KeepsChecks :
      (c : Check) (p : Progress) (held : Option ℕ)
      → KeepsChecks p (elim held [ some id ↦ (resolve env c id p, none) | none ↦ (p, none) ])
  below-KeepsChecks c p none = SameBoth-refl.1
  below-KeepsChecks c p (some id) = resolve-SameChecks c id p

  evaluate_check-KeepsChecks : (c : Check) (p : Progress) → KeepsChecks p (evaluate_check env c p)
  unfolding evaluate_check
  evaluate_check-KeepsChecks c p =
      let held = lookup text_discrete c.kind p.active in
      if_ind (KeepsChecks p) (leb_float c.threshold (of_nat 0)) _ _ (λ e. SameBoth-refl.1)
        (λ e.
          if_ind (KeepsChecks p) (leb_float c.threshold c.value) _ _
            (λ f. above-KeepsChecks c p held) (λ f. below-KeepsChecks c p held))

  evaluate_checks-KeepsChecks :
      (cs : List Check) (p : Progress) → KeepsChecks p (evaluate_checks env cs p)
  unfolding evaluate_checks
  evaluate_checks-KeepsChecks [] p = SameBoth-refl.1
  evaluate_checks-KeepsChecks (c ∷ cs) p =
      let (q, e) = evaluate_check env c p in
      let first = evaluate_check-KeepsChecks c p in
      elim (Option-cases e) [
        | inl f ↦
            rw (f, evaluate_checks) (SameChecks-trans first (evaluate_checks-KeepsChecks cs q))
        | inr (x, f) ↦ rw (f, evaluate_checks) first
      ]

  pub evaluate-SameChecks :
      (e : Engine) (m : AllMetrics) (w : World)
      → SameChecks w.tables (evaluate env e m w).0.world.tables
  unfolding evaluate
  evaluate-SameChecks e m w = evaluate_checks-KeepsChecks (checks e m) _

  pub acknowledge_alert-SameChecks :
      (id : ℕ) (w : World) → SameChecks w.tables (acknowledge_alert env id w).1.tables
  unfolding acknowledge_alert
  acknowledge_alert-SameChecks id w = record { rows = ground arith; next = ground arith }

  pub set_threshold-Same :
      (k : Text) (v : Float64) (w : World) → SameBoth w (set_threshold env k v w).1
  unfolding set_threshold
  set_threshold-Same k v w = untouched (ground arith) (ground arith) (ground arith) (ground arith)

  pub purge-SameChecks : (w : World) → SameChecks w.tables (purge env w).1.tables
  unfolding purge
  purge-SameChecks w = record { rows = ground arith; next = ground arith }

  pub insert_url_check-SameAlerts :
      (u : UrlCheck) (w : World) → SameAlerts w.tables (insert_url_check env u w).1.tables
  unfolding insert_url_check
  insert_url_check-SameAlerts u w = record { rows = ground arith; next = ground arith }

  pub update_url_check-SameAlerts :
      (u : UrlCheck) (w : World) → SameAlerts w.tables (update_url_check env u w).1.tables
  unfolding update_url_check
  update_url_check-SameAlerts u w = record { rows = ground arith; next = ground arith }

  pub delete_url_check-SameAlerts :
      (id : ℕ) (w : World) → SameAlerts w.tables (delete_url_check env id w).1.tables
  unfolding delete_url_check
  delete_url_check-SameAlerts id w = record { rows = ground arith; next = ground arith }

  pub get_url_check-Same : (id : ℕ) (w : World) → SameBoth w (get_url_check env id w).1
  unfolding get_url_check
  get_url_check-Same id w = untouched (ground arith) (ground arith) (ground arith) (ground arith)

  pub insert_url_result-Same :
      (r : UrlResult) (w : World) → SameBoth w (insert_url_result env r w).1
  unfolding insert_url_result
  insert_url_result-Same r w = untouched (ground arith) (ground arith) (ground arith) (ground arith)

  pub url_uptime-Same : (id since : ℕ) (w : World) → SameBoth w (url_uptime env id since w).1
  unfolding url_uptime
  url_uptime-Same id since w = untouched (ground arith) (ground arith) (ground arith) (ground arith)
