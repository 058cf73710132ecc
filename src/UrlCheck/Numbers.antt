-- ===== src/UrlCheck/Numbers.antt =====
-- The ids of internal/urlcheck/checker.go against those that AUTOINCREMENT gives out in the table
-- url_checks.
use monitoring.Base.{
  Bool-cases, Option-cases, is_some, keep, All, All-imp, lookup, insert, lookup-insert,
  lookup-delete, insert-HasApartKeys, ℕ, suc, ◌<◌, ◌≡◌, inl, inr, Bool, ◌&&◌, none, some, List, [],
  ◌∷◌, map, arith, ℕ_discrete,
}
use monitoring.Storage.{
  UrlCheck, Tables, Env, World, exec, url_taken, find_check, insert_url_check, set_columns,
  update_url_check, delete_url_check,
}
use monitoring.UrlCheck.Checker.{
  Context, Checker, new_summary, start_check, stop_check, start_enabled, after_insert, add,
  restart_check, after_update, update, forget, with_checker, remove,
}
use monitoring.UrlCheck.Running.{IsTidy}
use monitoring.UrlCheck.Changes.{
  summaries-IsTidy, start_enabled-IsTidy, restart_check-IsTidy, forget-IsTidy,
}

abbrev pub IdsBelow : ℕ → Checker → Type 0
IdsBelow n c = (i h : ℕ) → lookup ℕ_discrete i c.checks ≡ some h → i < n

abbrev pub RowsBelow : ℕ → List UrlCheck → Type 0
RowsBelow n rows = All (λ (u : UrlCheck). u.id < n) rows

-- The checker is tidy, and its ids and the rows' were given out.
pub record IsKept (c : Checker) (t : Tables) : Type 0 where
  pub tidy : IsTidy c
  pub ids : IdsBelow t.next_check c
  pub rows : RowsBelow t.next_check t.url_checks

pub found_row :
    (id n : ℕ) (rows : List UrlCheck) (u : UrlCheck)
    → find_check id rows ≡ some u
    → RowsBelow n rows
    → (u.id ≡ id) × (u.id < n)
unfolding find_check
found_row id n [] u e b = cc
found_row id n (v ∷ rows) u e b = ground (arith, found_row id n rows u, b.0)

RowsBelow-suc : (n : ℕ) (rows : List UrlCheck) → RowsBelow n rows → RowsBelow (suc n) rows
RowsBelow-suc n rows b = All-imp _ _ rows (λ u h. omega arith) b

RowsBelow-set_columns :
    (u : UrlCheck) (n : ℕ) (rows : List UrlCheck)
    → RowsBelow n rows
    → RowsBelow n (map (set_columns u) rows)
RowsBelow-set_columns u n [] b = tt
RowsBelow-set_columns u n (v ∷ rows) b = (ground (arith, b.0), RowsBelow-set_columns u n rows b.1)

RowsBelow-keep :
    (p : UrlCheck → Bool) (n : ℕ) (rows : List UrlCheck)
    → RowsBelow n rows
    → RowsBelow n (keep p rows)
RowsBelow-keep p n [] b = tt
RowsBelow-keep p n (v ∷ rows) b = ground (arith, b.0, RowsBelow-keep p n rows b.1)

IdsBelow-start_enabled :
    (ctx : Context) (ch : UrlCheck) (n : ℕ) (c : Checker)
    → ch.id < n
    → IdsBelow n c
    → IdsBelow n (start_enabled ctx ch c)
unfolding start_check
IdsBelow-start_enabled ctx ch n c h b i k e =
    ground (arith, lookup-insert ℕ_discrete ch.id i c.next_worker c.checks, b i k)

IdsBelow-stop_check : (id n : ℕ) (c : Checker) → IdsBelow n c → IdsBelow n (stop_check id c)
unfolding stop_check
IdsBelow-stop_check id n c b i k e = elim (Option-cases (lookup ℕ_discrete id c.checks)) [
  | inl f ↦ ground (arith, b i k)
  | inr (h, f) ↦ ground (arith, b i k, lookup-delete ℕ_discrete id i c.checks)
]

IdsBelow-restart_check :
    (ctx : Context) (ch : UrlCheck) (n : ℕ) (c : Checker)
    → ch.id < n
    → IdsBelow n c
    → IdsBelow n (restart_check ctx ch c)
unfolding restart_check
IdsBelow-restart_check ctx ch n c h b =
    IdsBelow-start_enabled ctx ch n _ h (IdsBelow-stop_check ch.id n c b)

IdsBelow-forget : (id n : ℕ) (c : Checker) → IdsBelow n c → IdsBelow n (forget id c)
unfolding forget
IdsBelow-forget id n c b = IdsBelow-stop_check id n c b

-- A new row's summary is made, under an id that was not given out before.
new_summary-IsTidy :
    (ch : UrlCheck) (c : Checker)
    → IsTidy c
    → IsTidy (record c { summaries = insert ℕ_discrete ch.id (new_summary ch) c.summaries })
new_summary-IsTidy ch c t =
    let put = λ (i : ℕ). lookup-insert ℕ_discrete ch.id i (new_summary ch) c.summaries in
    summaries-IsTidy c _ t (λ i k. ground (arith, put i))
      (λ i r k. ground (arith, put i, t.bounded i r))
      (insert-HasApartKeys ℕ_discrete ch.id (new_summary ch) c.summaries t.keys)

free_id : (n : ℕ) (c : Checker) → IdsBelow n c → lookup ℕ_discrete n c.checks ≡ none
free_id n c b = elim (Option-cases (lookup ℕ_discrete n c.checks)) [
  | inl e ↦ e
  | inr (h, e) ↦ absurd (omega (arith, b n h e))
]

module _ (env : Env) (ctx : Context) where
  pub add-IsKept :
      (ch : UrlCheck) (c : Checker) (w : World)
      → IsKept c w.tables
      → let (c', r, w') = add env ctx ch c w in IsKept c' w'.tables
  unfolding add insert_url_check
  add-IsKept ch c w k = elim (Option-cases (env.faults w.calls)) [
    | inr (x, e) ↦ rw (e, add, after_insert, insert_url_check, exec) k
    | inl e ↦ elim (Bool-cases (url_taken w.tables.next_check ch.url w.tables.url_checks)) [
      | inl f ↦ rw (e, f, add, after_insert, insert_url_check, exec) k
      | inr f ↦
          rw (e, f, add, after_insert, insert_url_check, exec)
            (record {
              tidy =
                  start_enabled-IsTidy ctx _ _ (free_id w.tables.next_check c k.ids)
                    (new_summary-IsTidy (record ch { id = w.tables.next_check }) c k.tidy);
              ids =
                  IdsBelow-start_enabled ctx (record ch { id = w.tables.next_check }) _ _
                    (omega arith) (λ i h e'. omega (arith, k.ids i h e'));
              rows = (omega arith, RowsBelow-suc _ w.tables.url_checks k.rows);
            })
    ]
  ]

  pub update-IsKept :
      (ch : UrlCheck) (c : Checker) (w : World)
      → ch.id < w.tables.next_check
      → IsKept c w.tables
      → let (c', r, w') = update env ctx ch c w in IsKept c' w'.tables
  unfolding update update_url_check
  update-IsKept ch c w h k = elim (Option-cases (env.faults w.calls)) [
    | inr (x, e) ↦ rw (e, update, after_update, update_url_check, exec) k
    | inl e ↦
        elim (Bool-cases (
          is_some (find_check ch.id w.tables.url_checks)
          && url_taken ch.id ch.url w.tables.url_checks)) [
            | inl f ↦ rw (e, f, update, after_update, update_url_check, exec) k
            | inr f ↦
                rw (e, f, update, after_update, update_url_check, exec)
                  (record {
                    tidy = restart_check-IsTidy ctx ch c k.tidy;
                    ids = IdsBelow-restart_check ctx ch _ c h k.ids;
                    rows = RowsBelow-set_columns ch _ w.tables.url_checks k.rows;
                  })
          ]
  ]

  pub remove-IsKept :
      (id : ℕ) (c : Checker) (w : World)
      → IsKept c w.tables
      → let (c', r, w') = remove env id c w in IsKept c' w'.tables
  unfolding remove delete_url_check
  remove-IsKept id c w k = elim (Option-cases (env.faults w.calls)) [
    | inr (x, e) ↦
        rw (e, remove, with_checker, delete_url_check, exec)
          (record {
            tidy = forget-IsTidy id c k.tidy;
            ids = IdsBelow-forget id _ c k.ids;
            rows = k.rows;
          })
    | inl e ↦
        rw (e, remove, with_checker, delete_url_check, exec)
          (record {
            tidy = forget-IsTidy id c k.tidy;
            ids = IdsBelow-forget id _ c k.ids;
            rows = RowsBelow-keep _ _ w.tables.url_checks k.rows;
          })
  ]
