-- ===== src/Storage/Integrity.antt =====
-- The foreign key of url_check_results in internal/storage/schema.go, over any sequence of the
-- statements of internal/storage/sqlite.go that change the two tables.
use monitoring.Base.{
  ◌==◌, Bool-cases, Option-cases, is_some, keep, All, All-imp, ℕ, ◌≡◌, refl, ◌∙◌, inl, inr, Bool,
  true, false, ◌&&◌, not, List, [], ◌∷◌, map, arith,
}
use monitoring.Storage.Schema.{UrlCheck, UrlResult, Tables}
use monitoring.Storage.Session.{Env, World, exec}
use monitoring.Storage.Checks.{
  url_taken, find_check, insert_url_check, set_columns, update_url_check, delete_url_check,
  insert_url_result,
}
use monitoring.Storage.Purge.{is_before, purge}

abbrev pub has_row : ℕ → List UrlCheck → Bool
has_row id rows = is_some (find_check id rows)

-- Every result is one of a check that has a row.
abbrev pub HasParents : Tables → Type 0
HasParents t = All (λ (r : UrlResult). has_row r.check_id t.url_checks ≡ true) t.url_check_results

pub data Statement : Type 0 where
  inserts_check : UrlCheck → Statement
  updates_check : UrlCheck → Statement
  deletes_check : ℕ → Statement
  inserts_result : UrlResult → Statement
  purges_old : Statement

-- The world after a statement; what it answers is not looked at.
unfoldable pub perform : Env → Statement → World → World
perform env (inserts_check u) w = (insert_url_check env u w).1
perform env (updates_check u) w = (update_url_check env u w).1
perform env (deletes_check id) w = (delete_url_check env id w).1
perform env (inserts_result r) w = (insert_url_result env r w).1
perform env purges_old w = (purge env w).1

unfoldable pub perform_all : Env → List Statement → World → World
perform_all env [] w = w
perform_all env (s ∷ ss) w = perform_all env ss (perform env s w)

has_row-cons :
    (id : ℕ) (u : UrlCheck) (rows : List UrlCheck)
    → has_row id rows ≡ true
    → has_row id (u ∷ rows) ≡ true
unfolding find_check
has_row-cons id u rows h = ground arith

has_row-set_columns :
    (u : UrlCheck) (id : ℕ) (rows : List UrlCheck)
    → has_row id (map (set_columns u) rows) ≡ has_row id rows
unfolding find_check
has_row-set_columns u id [] = refl
has_row-set_columns u id (v ∷ rows) = ground (arith, has_row-set_columns u id rows)

has_row-delete :
    (gone id : ℕ) (rows : List UrlCheck)
    → (id == gone) ≡ false
    → has_row id (keep (λ (u : UrlCheck). not (u.id == gone)) rows) ≡ has_row id rows
unfolding find_check
has_row-delete gone id [] h = refl
has_row-delete gone id (v ∷ rows) h = ground (arith, has_row-delete gone id rows h)

HasParents-delete :
    (gone : ℕ) (rows : List UrlCheck) (results : List UrlResult)
    → All (λ (r : UrlResult). has_row r.check_id rows ≡ true) results
    → All
        (λ (r : UrlResult).
          has_row r.check_id (keep (λ (u : UrlCheck). not (u.id == gone)) rows) ≡ true)
        (keep (λ (r : UrlResult). not (r.check_id == gone)) results)
HasParents-delete gone rows [] h = tt
HasParents-delete gone rows (r ∷ results) h =
    ground
      (arith, h.0, HasParents-delete gone rows results h.1, has_row-delete gone r.check_id rows)

All-keep : {A : Type 0} (P : A → Type 0) (p : A → Bool) (xs : List A) → All P xs → All P (keep p xs)
All-keep P p [] h = tt
All-keep P p (x ∷ xs) h = elim (Bool-cases (p x)) [
  | inl e ↦ rw e (h.0, All-keep P p xs h.1)
  | inr e ↦ rw e (All-keep P p xs h.1)
]

module _ (env : Env) where
  perform-insert :
      (u : UrlCheck) (w : World)
      → HasParents w.tables
      → HasParents (insert_url_check env u w).1.tables
  unfolding insert_url_check
  perform-insert u w h = elim (Option-cases (env.faults w.calls)) [
    | inr (x, e) ↦ rw (e, insert_url_check, exec) h
    | inl e ↦ elim (Bool-cases (url_taken w.tables.next_check u.url w.tables.url_checks)) [
      | inl f ↦ rw (e, f, insert_url_check, exec) h
      | inr f ↦
          rw (e, f, insert_url_check, exec)
            (All-imp _ _ w.tables.url_check_results
              (λ r k.
                has_row-cons r.check_id (record u { id = w.tables.next_check }) w.tables.url_checks
                  k)
              h)
    ]
  ]

  perform-update :
      (u : UrlCheck) (w : World)
      → HasParents w.tables
      → HasParents (update_url_check env u w).1.tables
  unfolding update_url_check
  perform-update u w h = elim (Option-cases (env.faults w.calls)) [
    | inr (x, e) ↦ rw (e, update_url_check, exec) h
    | inl e ↦
        elim (Bool-cases (
          is_some (find_check u.id w.tables.url_checks)
          && url_taken u.id u.url w.tables.url_checks)) [
            | inl f ↦ rw (e, f, update_url_check, exec) h
            | inr f ↦
                rw (e, f, update_url_check, exec)
                  (All-imp _ _ w.tables.url_check_results
                    (λ r k. has_row-set_columns u r.check_id w.tables.url_checks ∙ k) h)
          ]
  ]

  perform-delete :
      (id : ℕ) (w : World) → HasParents w.tables → HasParents (delete_url_check env id w).1.tables
  unfolding delete_url_check
  perform-delete id w h = elim (Option-cases (env.faults w.calls)) [
    | inr (x, e) ↦ rw (e, delete_url_check, exec) h
    | inl e ↦
        rw (e, delete_url_check, exec)
          (HasParents-delete id w.tables.url_checks w.tables.url_check_results h)
  ]

  perform-result :
      (r : UrlResult) (w : World)
      → HasParents w.tables
      → HasParents (insert_url_result env r w).1.tables
  unfolding insert_url_result
  perform-result r w h = elim (Option-cases (env.faults w.calls)) [
    | inr (x, e) ↦ rw (e, insert_url_result, exec) h
    | inl e ↦ elim (Bool-cases (is_some (find_check r.check_id w.tables.url_checks))) [
      | inl f ↦ rw (e, f, insert_url_result, exec) (f, h)
      | inr f ↦ rw (e, f, insert_url_result, exec) h
    ]
  ]

  -- What purge leaves of the two tables, wherever it stops.
  data Purged (t t' : Tables) : Type 0 where
    kept : t'.url_checks ≡ t.url_checks → t'.url_check_results ≡ t.url_check_results → Purged t t'
    cut :
        (p : UrlResult → Bool)
        → t'.url_checks ≡ t.url_checks
        → t'.url_check_results ≡ keep p t.url_check_results
        → Purged t t'

  purge-Purged : (w : World) → Purged w.tables (purge env w).1.tables
  unfolding purge
  purge-Purged w = elim (Option-cases (env.faults w.calls)) [
    | inr (x, e) ↦ kept (ground arith) (ground arith)
    | inl e ↦
        cut (λ (r : UrlResult). not (is_before 7 (env.clock w.reads) r.checked_at)) (ground arith)
          (ground arith)
  ]

  HasParents-Purged : {t t' : Tables} → Purged t t' → HasParents t → HasParents t'
  HasParents-Purged {t} {t'} (kept rows results) h = rw (rows, results) h
  HasParents-Purged {t} {t'} (cut p rows results) h =
      rw (rows, results) (All-keep _ p t.url_check_results h)

  perform-HasParents :
      (s : Statement) (w : World) → HasParents w.tables → HasParents (perform env s w).tables
  unfolding perform
  perform-HasParents (inserts_check u) w h = perform-insert u w h
  perform-HasParents (updates_check u) w h = perform-update u w h
  perform-HasParents (deletes_check id) w h = perform-delete id w h
  perform-HasParents (inserts_result r) w h = perform-result r w h
  perform-HasParents purges_old w h = HasParents-Purged (purge-Purged w) h

  -- If every row of url_check_results names a check that has a row, then so it is after any
  -- sequence of insertions, updates and deletions of checks, insertions of results and purges,
  -- whichever of their statements fail.
  pub perform_all-HasParents :
      (ss : List Statement) (w : World)
      → HasParents w.tables
      → HasParents (perform_all env ss w).tables
  unfolding perform_all
  perform_all-HasParents [] w h = h
  perform_all-HasParents (s ∷ ss) w h =
      perform_all-HasParents ss (perform env s w) (perform-HasParents s w h)
