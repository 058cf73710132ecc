-- ===== src/Alerts/Restart.antt =====
-- `LoadThresholds` and `UpdateThreshold` of internal/alerts/alerts.go against the tables.
use monitoring.Base.{
  Option-cases, Float64, place_desc, sort_desc, length, keep, lookup, insert, lookup-insert, Text,
  text_discrete, ℕ, suc, ◌≤◌, ◌≡◌, refl, sym, ap, ◌∙◌, ◌≢◌, inl, inr, ite, Option, none, some, List,
  [], ◌∷◌, arith,
}
use monitoring.Storage.{
  Alert, Tables, Error, ok, err, Env, World, IsReliable, is_open, scan_alerts, by_fired_at,
  active_alerts, get_thresholds, set_threshold,
}
use monitoring.Alerts.Engine.{
  Engine, new_engine, threshold, restore, load_thresholds, update_threshold,
}
use monitoring.Alerts.Sync.{open_ids, at_most_one, InSync}

ids_of : Text → List Alert → List ℕ
ids_of k [] = []
ids_of k (a ∷ rest) = ite (text_discrete a.kind k) (a.id ∷ ids_of k rest) (ids_of k rest)

lookup-restore_absent :
    (k : Text) (found : List Alert) (m : List (Text × ℕ))
    → ids_of k found ≡ []
    → lookup text_discrete k (restore found m) ≡ lookup text_discrete k m
unfolding ids_of restore
lookup-restore_absent k [] m h = refl
lookup-restore_absent k (a ∷ rest) m h = ground (
  arith,
  lookup-restore_absent k rest (insert text_discrete a.kind a.id m),
  lookup-insert text_discrete a.kind k a.id m,
)

lookup-restore_one :
    (k : Text) (id : ℕ) (found : List Alert) (m : List (Text × ℕ))
    → ids_of k found ≡ id ∷ []
    → lookup text_discrete k (restore found m) ≡ some id
unfolding ids_of restore
lookup-restore_one k id [] m h = cc
lookup-restore_one k id (a ∷ rest) m h = ground (
  arith,
  lookup-restore_one k id rest (insert text_discrete a.kind a.id m),
  lookup-restore_absent k rest (insert text_discrete a.kind a.id m),
  lookup-insert text_discrete a.kind k a.id m,
)

ids_of-scan_alerts : (k : Text) (rows : List Alert) → ids_of k (scan_alerts rows) ≡ ids_of k rows
unfolding ids_of
ids_of-scan_alerts k [] = refl
ids_of-scan_alerts k (a ∷ rest) = ground (arith, ids_of-scan_alerts k rest)

ids_of-keep : (k : Text) (rows : List Alert) → ids_of k (keep is_open rows) ≡ open_ids k rows
unfolding ids_of open_ids
ids_of-keep k [] = refl
ids_of-keep k (a ∷ rest) = ground (arith, ids_of-keep k rest)

ids_of-place_other :
    (k : Text) (a : Alert) (rows : List Alert)
    → a.kind ≢ k
    → ids_of k (place_desc by_fired_at a rows) ≡ ids_of k rows
unfolding ids_of place_desc
ids_of-place_other k a [] h = ground arith
ids_of-place_other k a (b ∷ rest) h = ground (arith, ids_of-place_other k a rest h)

ids_of-place_alone :
    (k : Text) (a : Alert) (rows : List Alert)
    → a.kind ≡ k
    → ids_of k rows ≡ []
    → ids_of k (place_desc by_fired_at a rows) ≡ a.id ∷ []
unfolding ids_of place_desc
ids_of-place_alone k a [] h e = ground arith
ids_of-place_alone k a (b ∷ rest) h e = ground (arith, ids_of-place_alone k a rest h)

nil_of_length : (xs : List ℕ) → length xs ≤ 0 → xs ≡ []
nil_of_length [] h = refl
nil_of_length (x ∷ xs) h = absurd (omega arith)

-- The order of the query does not matter to a kind with one row at most.
ids_of-sort_desc :
    (k : Text) (rows : List Alert)
    → length (ids_of k rows) ≤ 1
    → ids_of k (sort_desc by_fired_at rows) ≡ ids_of k rows
unfolding ids_of sort_desc
ids_of-sort_desc k [] h = refl
ids_of-sort_desc k (a ∷ rest) h =
    let sorted = sort_desc by_fired_at rest in
    ground (
      arith,
      ids_of-sort_desc k rest,
      ids_of-place_other k a sorted,
      ids_of-place_alone k a sorted,
      nil_of_length (ids_of k rest),
    )

length-at_most_one : (o : Option ℕ) → length (at_most_one o) ≤ 1
length-at_most_one none = omega arith
length-at_most_one (some id) = omega arith

module _ (env : Env) (reliable : IsReliable env) where
  loaded : World → Engine → Engine
  loaded w e = record e {
    thresholds = w.tables.thresholds;
    active = restore (scan_alerts (sort_desc by_fired_at (keep is_open w.tables.alerts))) e.active;
  }

  load_thresholds-eq :
      (e : Engine) (w : World)
      → load_thresholds env e w ≡ (loaded w e, ok tt, record w { calls = suc (suc w.calls) })
  unfolding load_thresholds get_thresholds active_alerts loaded
  load_thresholds-eq e w = ground (arith, reliable w.calls, reliable (suc w.calls))

  open_rows : World → List Alert
  open_rows w = scan_alerts (sort_desc by_fired_at (keep is_open w.tables.alerts))

  ids_of-open_rows :
      (k : Text) (e : Engine) (w : World)
      → InSync e.active w.tables
      → ids_of k (open_rows w) ≡ at_most_one (lookup text_discrete k e.active)
  unfolding open_rows
  ids_of-open_rows k e w sync =
      let rows = keep is_open w.tables.alerts in
      let agree = ids_of-keep k w.tables.alerts ∙ sync.agree k in
      ids_of-scan_alerts k (sort_desc by_fired_at rows)
      ∙ ids_of-sort_desc k rows (rw agree (length-at_most_one (lookup text_discrete k e.active)))
      ∙ agree

  lookup-restore :
      (k : Text) (e : Engine) (w : World)
      → InSync e.active w.tables
      → lookup text_discrete k (restore (open_rows w) []) ≡ lookup text_discrete k e.active
  unfolding lookup
  lookup-restore k e w sync = elim (Option-cases (lookup text_discrete k e.active)) [
    | inl none_held ↦
        lookup-restore_absent k (open_rows w) []
          (ids_of-open_rows k e w sync ∙ ap at_most_one none_held)
        ∙ sym none_held
    | inr (id, held) ↦
        lookup-restore_one k id (open_rows w) [] (ids_of-open_rows k e w sync ∙ ap at_most_one held)
        ∙ sym held
  ]

  -- If all statements succeed and the map of active alerts agrees with the table, then a new
  -- engine that runs `LoadThresholds` has no error, takes the thresholds of the table, holds the
  -- same alert for every kind as the engine before it, and leaves the tables as they are.
  pub restart :
      (e : Engine) (w : World)
      → InSync e.active w.tables
      → let (e', r, w') = load_thresholds env new_engine w in
        (r ≡ ok tt)
        × (e'.thresholds ≡ w.tables.thresholds)
        × ((k : Text) → lookup text_discrete k e'.active ≡ lookup text_discrete k e.active)
        × (w'.tables ≡ w.tables)
  unfolding loaded new_engine open_rows
  restart e w sync =
      rw (load_thresholds-eq new_engine w) (refl, refl, (λ k. lookup-restore k e w sync), refl)

-- The engine's thresholds are those of the table.
abbrev pub ThresholdsAgree : Engine → Tables → Type 0
ThresholdsAgree e t =
    (k : Text) → lookup text_discrete k e.thresholds ≡ lookup text_discrete k t.thresholds

-- If the engine's thresholds agree with the table's, they agree after `UpdateThreshold`, whether
-- or not its statement fails; where it succeeds, `Threshold` answers the new value for that key
-- and as before for the others; where it fails, the engine and the tables are as before.
pub update_threshold-agree :
    (env : Env) (e : Engine) (key : Text) (value : Float64) (w : World)
    → ThresholdsAgree e w.tables
    → let (e', r, w') = update_threshold env e key value w in
      ThresholdsAgree e' w'.tables
      × ((r ≡ ok tt)
          → (k : Text) (default : Float64)
          → threshold e' k default ≡ ite (text_discrete key k) value (threshold e k default))
      × ((x : Error) → r ≡ err x → (e' ≡ e) × (w'.tables ≡ w.tables))
unfolding update_threshold set_threshold threshold
update_threshold-agree env e key value w agree = elim (Option-cases (env.faults w.calls)) [
  | inl fine ↦ (
    (λ k. ground (
      arith,
      agree k,
      lookup-insert text_discrete key k value e.thresholds,
      lookup-insert text_discrete key k value w.tables.thresholds,
    )),
    (λ done k default. ground (arith, lookup-insert text_discrete key k value e.thresholds)),
    (λ x failed. ground arith),
  )
  | inr (x, fault) ↦ (
    (λ k. ground (arith, agree k)),
    (λ done k default. ground arith),
    (λ y failed. (ground arith, ground arith)),
  )
]
