-- ===== src/Alerts/Levels.antt =====
-- `Evaluate` of internal/alerts/alerts.go, check by check, and run a second time.
use mathlib.Core.List.{Memᴰ}
use mathlib.Core.List.Memᴰ
use monitoring.Base.{
  Bool-cases, is_some, of_nat, All, Apart, All-mem, Text, text_discrete, ◌≡◌, refl, sym, ap, subst,
  ◌∙◌, ◌≢◌, inl, inr, ite, if_pos, if_neg, Bool, not, none, List, [], ◌∷◌, arith,
}
use monitoring.Storage.{Env, World, IsReliable}
use monitoring.Alerts.Engine.{
  UrlAlert, AllMetrics, Engine, Check, url_kind, url_check, checks, Progress, evaluate_check,
  evaluate_checks, evaluate,
}
use monitoring.Alerts.Rounds.{level, is_active, Outcome, evaluate_check-Outcome}
use monitoring.Alerts.Evaluate.{expected, evaluate-expected}
use monitoring.Alerts.Kinds.{kind, HasKeys, checks-Apart}

expected-absent :
    (k : Text) (cs : List Check) (was : Bool) → All (λ c. k ≢ kind c) cs → expected k cs was ≡ was
unfolding expected
expected-absent k [] was h = refl
expected-absent k (c ∷ cs) was h = ground (arith, expected-absent k cs was h.1)

ite_same : (k : Text) (x y : Bool) → ite (text_discrete k k) x y ≡ x
ite_same k x y = if_pos _ refl x y

expected-mem :
    {c : Check} (cs : List Check) (was : Bool)
    → Memᴰ c cs
    → Apart kind cs
    → expected c.kind cs was ≡ level c was
unfolding expected
expected-mem [] was m h = elim m [ ]
expected-mem {c} (x ∷ cs) was (Memᴰ.head e) h =
    subst (λ d. expected d.kind (x ∷ cs) was ≡ level d was) (sym e)
      (rw (ite_same x.kind (level x was) was) (expected-absent x.kind cs (level x was) h.0))
expected-mem {c} (x ∷ cs) was (Memᴰ.tail m) h =
    let apart = All-mem (λ y. kind x ≢ kind y) cs m h.0 in
    rw (if_neg _ apart) (expected-mem cs was m h.1)

level-url_check : (u : UrlAlert) (was : Bool) → level (url_check u) was ≡ not u.up
unfolding url_check of_nat
level-url_check u was = elim (Bool-cases u.up) [ inl e ↦ rw e | inr e ↦ rw e ]

-- A check whose kind is where the check wants it.
abbrev IsSettled : Progress → Check → Type 0
IsSettled p c = level c (is_active c.kind p.active) ≡ is_active c.kind p.active

evaluate_check_settled :
    (env : Env) (c : Check) (p : Progress) → IsSettled p c → evaluate_check env c p ≡ (p, none)
evaluate_check_settled env c p settled = elim (evaluate_check-Outcome env c p) [
  | Outcome.stays l r ↦ r
  | Outcome.fires new l r ↦ ground (arith, ap is_some new)
  | Outcome.resolves id old l r ↦ ground (arith, ap is_some old)
]

evaluate_checks_settled :
    (env : Env) (cs : List Check) (p : Progress)
    → All (IsSettled p) cs
    → evaluate_checks env cs p ≡ (p, none)
unfolding evaluate_checks
evaluate_checks_settled env [] p h = refl
evaluate_checks_settled env (c ∷ cs) p h =
    let same = evaluate_check_settled env c p h.0 in
    rw (ap (λ r. r.1) same, evaluate_checks)
      (rw (ap (λ r. r.0) same) (evaluate_checks_settled env cs p h.1))

level_idem : (c : Check) (was : Bool) → level c (level c was) ≡ level c was
level_idem c was = ground arith

-- Every check of a list is settled, if its kind is at its level.
All-IsSettled :
    (p : Progress) (cs ds : List Check)
    → ((c : Check) → Memᴰ c ds → IsSettled p c)
    → ((c : Check) → Memᴰ c cs → Memᴰ c ds)
    → All (IsSettled p) cs
All-IsSettled p [] ds settled sub = tt
All-IsSettled p (c ∷ cs) ds settled sub = (
  settled c (sub c (Memᴰ.head refl)),
  All-IsSettled p cs ds settled (λ d held. sub d (Memᴰ.tail held)),
)

module _ (env : Env) (reliable : IsReliable env) (e : Engine) (m : AllMetrics) (w : World) where
  -- If all statements succeed, no two disks of the metrics share a mount point and no two URLs an
  -- id, then after `Evaluate` the kind of every check is active just if its value is at its
  -- threshold or above; a check whose threshold is not positive leaves its kind as it was.
  pub evaluate-level :
      (c : Check)
      → HasKeys m
      → Memᴰ c (checks e m)
      → is_active c.kind (evaluate env e m w).0.active ≡ level c (is_active c.kind e.active)
  evaluate-level c keys held =
      evaluate-expected env reliable e m w c.kind
      ∙ expected-mem (checks e m) (is_active c.kind e.active) held (checks-Apart e m keys)

  -- If all statements succeed, a kind that no check of a run has, such as that of a disk no
  -- longer mounted or of a URL removed, is after the run as active as before it.
  pub evaluate_unchecked :
      (k : Text)
      → All (λ c. k ≢ kind c) (checks e m)
      → is_active k (evaluate env e m w).0.active ≡ is_active k e.active
  evaluate_unchecked k absent =
      evaluate-expected env reliable e m w k
      ∙ expected-absent k (checks e m) (is_active k e.active) absent

  -- If all statements succeed, no two disks share a mount point and no two URLs an id, then after
  -- `Evaluate` the alert of a URL among the metrics is active just if the URL is down.
  pub evaluate_url :
      (u : UrlAlert)
      → HasKeys m
      → Memᴰ u m.url_stats
      → is_active (url_kind u.id) (evaluate env e m w).0.active ≡ not u.up
  unfolding checks url_check
  evaluate_url u keys held =
      evaluate-level (url_check u) keys
        (Memᴰ.tail (Memᴰ.tail (Memᴰ.tail (Memᴰ.append_right _ (Memᴰ.map url_check held)))))
      ∙ level-url_check u _

  IsSettled-after :
      (c : Check)
      → HasKeys m
      → Memᴰ c (checks e m)
      → IsSettled (record (evaluate env e m w).0 { fired = [] }) c
  IsSettled-after c keys held = rw (evaluate-level c keys held) (level_idem c _)

  -- If all statements succeed, no two disks share a mount point and no two URLs an id, then a
  -- second run of `Evaluate` on the same metrics fires nothing, has no error, and changes neither
  -- the map nor the world.
  pub evaluate_again :
      HasKeys m
      → let p = (evaluate env e m w).0 in
        evaluate env (record e { active = p.active }) m p.world ≡ (record p { fired = [] }, none)
  unfolding evaluate checks
  evaluate_again keys =
      evaluate_checks_settled env (checks e m) (record (evaluate env e m w).0 { fired = [] })
        (All-IsSettled (record (evaluate env e m w).0 { fired = [] }) (checks e m) (checks e m)
          (λ c held. IsSettled-after c keys held) (λ c held. held))
