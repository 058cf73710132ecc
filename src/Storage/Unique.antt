-- ===== src/Storage/Unique.antt =====
-- The keys of url_checks in internal/storage/schema.go, over any sequence of the statements of
-- internal/storage/sqlite.go that change the table.
use monitoring.Base.{
  ◌==◌, Bool-cases, Option-cases, is_some, ℕ, ◌≡◌, inl, inr, not, List, [], ◌∷◌, arith,
}
use monitoring.Storage.Schema.{UrlCheck, Tables}
use monitoring.Storage.Session.{Env, World, exec}
use monitoring.Storage.Checks.{
  url_taken, find_check, insert_url_check, update_url_check, delete_url_check, insert_url_result,
}
use monitoring.Storage.Purge.{purge}
use monitoring.Storage.Integrity.{
  Statement, inserts_check, updates_check, deletes_check, inserts_result, purges_old, perform,
  perform_all,
}
use monitoring.Storage.Rows.{
  HasUniqueRows, url_taken-IsFree, no_row, set_columns-none, set_columns-HasUniqueRows,
  insert-HasUniqueRows, keep-HasUniqueRows,
}

abbrev pub TablesAreUnique : Tables → Type 0
TablesAreUnique t = HasUniqueRows t.next_check t.url_checks

module _ (env : Env) where
  pub insert_url_check_unique :
      (u : UrlCheck) (w : World)
      → TablesAreUnique w.tables
      → TablesAreUnique (insert_url_check env u w).1.tables
  unfolding insert_url_check
  insert_url_check_unique u w h = elim (Option-cases (env.faults w.calls)) [
    | inr (x, e) ↦ rw (e, insert_url_check, exec) h
    | inl e ↦ elim (Bool-cases (url_taken w.tables.next_check u.url w.tables.url_checks)) [
      | inl f ↦ rw (e, f, insert_url_check, exec) h
      | inr f ↦
          rw (e, f, insert_url_check, exec)
            (insert-HasUniqueRows u w.tables.next_check w.tables.url_checks f h)
    ]
  ]

  pub update_url_check_unique :
      (u : UrlCheck) (w : World)
      → TablesAreUnique w.tables
      → TablesAreUnique (update_url_check env u w).1.tables
  unfolding update_url_check
  update_url_check_unique u w h =
      let rows = w.tables.url_checks in
      elim (Option-cases (env.faults w.calls)) [
        | inr (x, e) ↦ rw (e, update_url_check, exec) h
        | inl e ↦ elim (Bool-cases (is_some (find_check u.id rows))) [
          | inr f ↦
              rw (e, f, set_columns-none u rows (no_row u.id rows f), update_url_check, exec)
                (record { ids = h.ids; urls = h.urls; below = h.below })
          | inl f ↦ elim (Bool-cases (url_taken u.id u.url rows)) [
            | inl g ↦ rw (e, f, g, update_url_check, exec) h
            | inr g ↦
                rw (e, f, g, update_url_check, exec)
                  (set_columns-HasUniqueRows u w.tables.next_check rows
                    (url_taken-IsFree u.id u.url rows g) h)
          ]
        ]
      ]

  pub delete_url_check_unique :
      (id : ℕ) (w : World)
      → TablesAreUnique w.tables
      → TablesAreUnique (delete_url_check env id w).1.tables
  unfolding delete_url_check
  delete_url_check_unique id w h = elim (Option-cases (env.faults w.calls)) [
    | inr (x, e) ↦ rw (e, delete_url_check, exec) h
    | inl e ↦
        rw (e, delete_url_check, exec)
          (keep-HasUniqueRows (λ (u : UrlCheck). not (u.id == id)) w.tables.next_check
            w.tables.url_checks h)
  ]

  -- A statement that leaves the rows of url_checks as they are.
  same_rows :
      (t t' : Tables)
      → t'.url_checks ≡ t.url_checks
      → t'.next_check ≡ t.next_check
      → TablesAreUnique t
      → TablesAreUnique t'
  same_rows t t' rows next h = rw (rows, next) h

  perform_unique :
      (s : Statement) (w : World)
      → TablesAreUnique w.tables
      → TablesAreUnique (perform env s w).tables
  unfolding perform insert_url_result purge
  perform_unique (inserts_check u) w h = insert_url_check_unique u w h
  perform_unique (updates_check u) w h = update_url_check_unique u w h
  perform_unique (deletes_check id) w h = delete_url_check_unique id w h
  perform_unique (inserts_result r) w h =
      same_rows w.tables (insert_url_result env r w).1.tables (ground arith) (ground arith) h
  perform_unique purges_old w h =
      same_rows w.tables (purge env w).1.tables (ground arith) (ground arith) h

  -- If no two rows of url_checks share an id or a url, and their ids lie below the next one, then
  -- so it is after any sequence of insertions, updates and deletions of checks, insertions of
  -- results and purges, whichever of their statements fail.
  pub perform_all_unique :
      (ss : List Statement) (w : World)
      → TablesAreUnique w.tables
      → TablesAreUnique (perform_all env ss w).tables
  unfolding perform_all
  perform_all_unique [] w h = h
  perform_all_unique (s ∷ ss) w h = perform_all_unique ss (perform env s w) (perform_unique s w h)
