-- ===== src/Alerts/Sync.antt =====
-- The map `activeAlerts` of internal/alerts/alerts.go against the table alerts: the invariant that
-- they agree, and what each statement does to it.
use monitoring.Base.{
  ◌==◌, if◌then◌else◌, Bool-cases, Option-cases, is_some, keep, All, lookup, insert, delete,
  lookup-insert, lookup-delete, Text, text_discrete, ℕ, suc, ◌≤◌, ◌<◌, ◌≡◌, refl, ◌∙◌, ◌≢◌, inl,
  inr, ite, if_pos, if_neg, Bool, not, Option, none, some, List, [], ◌∷◌, map, arith, ℕ_discrete,
}
use monitoring.Storage.{Alert, Tables, mark_resolved, mark_acknowledged, is_stale}

-- The ids fall along the table, below the one that AUTOINCREMENT gives out next.
abbrev pub Below : ℕ → List Alert → Type 0
Below n [] = Unit {0}
Below n (a ∷ rest) = (a.id < n) × Below a.id rest

-- The ids of the open alerts of a kind.
unfoldable pub open_ids : Text → List Alert → List ℕ
open_ids k [] = []
open_ids k (a ∷ rest) =
    ite (text_discrete a.kind k)
      (if is_some a.resolved_at then open_ids k rest else a.id ∷ open_ids k rest) (open_ids k rest)

abbrev pub at_most_one : Option ℕ → List ℕ
at_most_one none = []
at_most_one (some id) = id ∷ []

-- The engine's map and the table agree: every kind has at most one open alert, and the map holds
-- just the open ones.
pub record InSync (active : List (Text × ℕ)) (t : Tables) : Type 0 where
  pub fresh : Below t.next_alert t.alerts
  pub agree : (k : Text) → open_ids k t.alerts ≡ at_most_one (lookup text_discrete k active)

without : ℕ → List ℕ → List ℕ
without id [] = []
without id (i ∷ is) = if i == id then without id is else i ∷ without id is

pub Below-mark_resolved :
    (id time n : ℕ) (rows : List Alert) → Below n rows → Below n (map (mark_resolved id time) rows)
Below-mark_resolved id time n [] b = tt
Below-mark_resolved id time n (a ∷ rest) b = ground (arith, Below-mark_resolved id time a.id rest)

open_ids-mark_resolved :
    (id time : ℕ) (k : Text) (rows : List Alert)
    → open_ids k (map (mark_resolved id time) rows) ≡ without id (open_ids k rows)
unfolding open_ids without
open_ids-mark_resolved id time k [] = refl
open_ids-mark_resolved id time k (a ∷ rest) = ground (arith, open_ids-mark_resolved id time k rest)

-- The kind of the first row with an id.
kind_of : ℕ → List Alert → Option Text
kind_of id [] = none
kind_of id (a ∷ rest) = if a.id == id then some a.kind else kind_of id rest

abbrev Known : ℕ → Text → List Alert → ℕ → Type 0
Known n k rows id = (id < n) × (kind_of id rows ≡ some k)

Known-cons :
    (n : ℕ) (k : Text) (a : Alert) (rest : List Alert) (ids : List ℕ)
    → a.id < n
    → All (Known a.id k rest) ids
    → All (Known n k (a ∷ rest)) ids
unfolding kind_of
Known-cons n k a rest [] h known = tt
Known-cons n k a rest (i ∷ ids) h known = (ground arith, Known-cons n k a rest ids h known.1)

open_ids-Known :
    (n : ℕ) (k : Text) (rows : List Alert) → Below n rows → All (Known n k rows) (open_ids k rows)
unfolding open_ids
open_ids-Known n k [] b = tt
open_ids-Known n k (a ∷ rest) b =
    let known = open_ids-Known a.id k rest b.1 in
    let old = Known-cons n k a rest (open_ids k rest) b.0 known in
    elim (text_discrete a.kind k) [
      | yes same ↦ rw (if_pos _ same) (elim (Bool-cases (is_some a.resolved_at)) [
        | inl closed ↦ rw closed old
        | inr opened ↦ rw opened ((b.0, unfold kind_of in ground arith), old)
      ])
      | no other ↦ rw (if_neg _ other) old
    ]

-- An id is open under one kind at most.
open_ids-disjoint :
    (n : ℕ) (j k : Text) (rows : List Alert) (id : ℕ)
    → Below n rows
    → open_ids j rows ≡ id ∷ []
    → open_ids k rows ≡ id ∷ []
    → j ≡ k
open_ids-disjoint n j k rows id b ej ek =
    let known_j = rw ej at (open_ids-Known n j rows b) in
    let known_k = rw ek at (open_ids-Known n k rows b) in cc (known_j.0.1, known_k.0.1)

Below-mark_acknowledged :
    (id n : ℕ) (rows : List Alert) → Below n rows → Below n (map (mark_acknowledged id) rows)
Below-mark_acknowledged id n [] b = tt
Below-mark_acknowledged id n (a ∷ rest) b = ground (arith, Below-mark_acknowledged id a.id rest)

open_ids-mark_acknowledged :
    (id : ℕ) (k : Text) (rows : List Alert)
    → open_ids k (map (mark_acknowledged id) rows) ≡ open_ids k rows
unfolding open_ids
open_ids-mark_acknowledged id k [] = refl
open_ids-mark_acknowledged id k (a ∷ rest) = ground (arith, open_ids-mark_acknowledged id k rest)

Below-le : (m n : ℕ) (rows : List Alert) → m ≤ n → Below m rows → Below n rows
Below-le m n [] h b = tt
Below-le m n (a ∷ rest) h b = (omega arith, b.1)

Below-keep : (p : Alert → Bool) (n : ℕ) (rows : List Alert) → Below n rows → Below n (keep p rows)
Below-keep p n [] b = tt
Below-keep p n (a ∷ rest) b = ground (arith, Below-keep p a.id rest, Below-le a.id n (keep p rest))

open_ids-purge :
    (time : ℕ) (k : Text) (rows : List Alert)
    → open_ids k (keep (λ a. not (is_stale time a)) rows) ≡ open_ids k rows
unfolding open_ids
open_ids-purge time k [] = refl
open_ids-purge time k (a ∷ rest) = ground (arith, open_ids-purge time k rest)

module _ {active : List (Text × ℕ)} {t : Tables} (sync : InSync active t) where
  -- A kind that is not active is opened under a fresh id.
  pub InSync-insert :
      (a : Alert)
      → a.id ≡ t.next_alert
      → a.resolved_at ≡ none
      → lookup text_discrete a.kind active ≡ none
      → InSync
          (insert text_discrete a.kind a.id active)
          (record t { alerts = a ∷ t.alerts; next_alert = suc t.next_alert })
  unfolding open_ids
  InSync-insert a new opened inactive = record {
    fresh = (ground arith, ground (arith, sync.fresh));
    agree = λ k.
        ground (
          arith,
          sync.agree k,
          sync.agree a.kind,
          lookup-insert text_discrete a.kind k a.id active,
        );
  }

  without-other :
      (kind k : Text) (id : ℕ)
      → lookup text_discrete kind active ≡ some id
      → kind ≢ k
      → without id (open_ids k t.alerts) ≡ at_most_one (lookup text_discrete k active)
  unfolding without
  without-other kind k id held other = elim (Option-cases (lookup text_discrete k active)) [
    | inl e ↦ ground (arith, sync.agree k)
    | inr (i, e) ↦ elim (ℕ_discrete i id) [
      | yes same ↦ absurd (
          other (
            open_ids-disjoint t.next_alert kind k t.alerts id sync.fresh
              (ground (arith, sync.agree kind)) (ground (arith, sync.agree k))))
      | no apart ↦ ground (arith, sync.agree k)
    ]
  ]

  without-held :
      (kind : Text) (id : ℕ)
      → lookup text_discrete kind active ≡ some id
      → without id (open_ids kind t.alerts) ≡ []
  unfolding without
  without-held kind id held = ground (arith, sync.agree kind)

  -- The open alert of an active kind is resolved.
  pub InSync-delete :
      (kind : Text) (id time : ℕ)
      → lookup text_discrete kind active ≡ some id
      → InSync
          (delete text_discrete kind active)
          (record t { alerts = map (mark_resolved id time) t.alerts })
  InSync-delete kind id time held = record {
    fresh = Below-mark_resolved id time t.next_alert t.alerts sync.fresh;
    agree = λ k. rw open_ids-mark_resolved (
        ground (
          arith,
          lookup-delete text_discrete kind k active,
          without-other kind k id held,
          without-held kind id held,
        ));
  }

  -- An acknowledgement changes no alert's kind and opens or resolves none.
  pub InSync-acknowledge :
      (id : ℕ) → InSync active (record t { alerts = map (mark_acknowledged id) t.alerts })
  InSync-acknowledge id = record {
    fresh = Below-mark_acknowledged id t.next_alert t.alerts sync.fresh;
    agree = λ k. open_ids-mark_acknowledged id k t.alerts ∙ sync.agree k;
  }

  -- Only resolved alerts are purged.
  pub InSync-purge :
      (time : ℕ) → InSync active (record t { alerts = keep (λ a. not (is_stale time a)) t.alerts })
  InSync-purge time = record {
    fresh = Below-keep (λ a. not (is_stale time a)) t.next_alert t.alerts sync.fresh;
    agree = λ k. open_ids-purge time k t.alerts ∙ sync.agree k;
  }

  -- Nothing else matters than the table, and what the map holds of each kind.
  pub InSync-same :
      (active' : List (Text × ℕ)) (t' : Tables)
      → t'.alerts ≡ t.alerts
      → t'.next_alert ≡ t.next_alert
      → ((k : Text) → lookup text_discrete k active' ≡ lookup text_discrete k active)
      → InSync active' t'
  InSync-same active' t' rows next held = record {
    fresh = rw (rows, next) sync.fresh;
    agree = λ k. rw (rows, held k) (sync.agree k);
  }
