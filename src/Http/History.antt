-- ===== src/Http/History.antt =====
-- Every history of requests on /api/url-checks (internal/http/handlers.go) that do not overlap, with
-- the probes of the checker's goroutines (internal/urlcheck/checker.go) between them.
use monitoring.Base.{
  Bool-cases, Option-cases, parse_int, Text, ℤ, ℕ, suc, ◌-◌, ◌<◌, ◌≡◌, refl, sym, subst, ◌∙◌, inl,
  inr, Option, none, some, List, [], ◌∷◌, arith,
}
use monitoring.Storage.{
  UrlCheck, UrlResult, Result, ok, err, Env, World, exec, find_check, get_url_check,
  insert_url_result, url_uptime,
}
use monitoring.UrlCheck.Checker.{Context, Checker}
use monitoring.UrlCheck.Probe.{Answer, do_check, row_of, day, do_and_store}
use monitoring.UrlCheck.Changed.{do_and_store-IsTidy}
use monitoring.UrlCheck.Numbers.{
  IdsBelow, RowsBelow, IsKept, found_row, add-IsKept, update-IsKept, remove-IsKept,
}
use monitoring.Http.Messages.{
  Method, get_method, post_method, put_method, delete_method, other_method, CreateRequest,
  UpdateRequest, row_id,
}
use monitoring.Http.Handlers.{
  App, list_url_checks_handler, after_add, is_empty, create_url_check, handle_url_checks, merge,
  after_change, after_get, update_url_check_handler, after_remove, by_id, by_parsed_id,
  handle_url_check_by_id,
}

pub data Request : Type 0 where
  asks_all : Context → Method → Option CreateRequest → Request
  asks_one : Context → Method → Text → Option UpdateRequest → Request
  probes : UrlCheck → Answer → Request

abbrev pub after_probe : App → Checker × World → App
after_probe a (c, w) = record a { checker = c; world = w }

unfoldable pub serve : Env → Request → App → App
serve env (asks_all ctx m body) a = (handle_url_checks env ctx m body a).1
serve env (asks_one ctx m id body) a = (handle_url_check_by_id env ctx m id body a).1
serve env (probes ch answer) a = after_probe a (do_and_store env ch answer a.checker a.world)

unfoldable pub serve_all : Env → List Request → App → App
serve_all env [] a = a
serve_all env (r ∷ rs) a = serve_all env rs (serve env r a)

abbrev pub AppIsKept : App → Type 0
AppIsKept a = IsKept a.checker a.world.tables

module _ (env : Env) where
  after_add-IsKept :
      (a : App) (x : Checker × Result UrlCheck × World)
      → IsKept x.0 x.2.tables
      → AppIsKept (after_add a x).1
  after_add-IsKept a (c, ok ch, w) k = k
  after_add-IsKept a (c, err e, w) k = k

  create-IsKept :
      (ctx : Context) (body : Option CreateRequest) (a : App)
      → AppIsKept a
      → AppIsKept (create_url_check env ctx body a).1
  unfolding create_url_check
  create-IsKept ctx none a k = k
  create-IsKept ctx (some r) a k = elim (Bool-cases (is_empty r.url)) [
    | inl e ↦ rw e k
    | inr e ↦ rw e (
        after_add-IsKept a _
          (add-IsKept env ctx _ a.checker _ (record { tidy = k.tidy; ids = k.ids; rows = k.rows })))
  ]

  handle_url_checks-IsKept :
      (ctx : Context) (m : Method) (body : Option CreateRequest) (a : App)
      → AppIsKept a
      → AppIsKept (handle_url_checks env ctx m body a).1
  unfolding handle_url_checks list_url_checks_handler
  handle_url_checks-IsKept ctx get_method body a k = k
  handle_url_checks-IsKept ctx post_method body a k = create-IsKept ctx body a k
  handle_url_checks-IsKept ctx put_method body a k = k
  handle_url_checks-IsKept ctx delete_method body a k = k
  handle_url_checks-IsKept ctx other_method body a k = k

  after_change-IsKept :
      (a : App) (ch : UrlCheck) (x : Checker × Result (Unit {0}) × World)
      → IsKept x.0 x.2.tables
      → AppIsKept (after_change a ch x).1
  after_change-IsKept a ch (c, ok u, w) k = k
  after_change-IsKept a ch (c, err e, w) k = k

  after_remove-IsKept :
      (a : App) (x : Checker × Result (Unit {0}) × World)
      → IsKept x.0 x.2.tables
      → AppIsKept (after_remove a x).1
  after_remove-IsKept a (c, ok u, w) k = k
  after_remove-IsKept a (c, err e, w) k = k

  -- What a read of a row leaves: the tables as they were, and a row that was given out.
  record IsRead (w : World) (x : Result UrlCheck × World) : Type 0 where
    same : x.1.tables ≡ w.tables
    given : (u : UrlCheck) → x.0 ≡ ok u → u.id < w.tables.next_check

  get_url_check-IsRead :
      (id : ℕ) (w : World)
      → RowsBelow w.tables.next_check w.tables.url_checks
      → IsRead w (get_url_check env id w)
  unfolding get_url_check
  get_url_check-IsRead id w b = elim (Option-cases (env.faults w.calls)) [
    | inr (x, e) ↦ rw (e, get_url_check, exec) (record { same = refl; given = λ u f. ground arith })
    | inl e ↦ elim (Option-cases (find_check id w.tables.url_checks)) [
      | inl f ↦ rw (e, f, get_url_check, exec) (record { same = refl; given = λ u g. ground arith })
      | inr (v, f) ↦
          rw (e, f, get_url_check, exec)
            (record {
              same = refl;
              given =
                  λ u g. ground (arith, found_row id w.tables.next_check w.tables.url_checks v f b);
            })
    ]
  ]

  after_get-IsKept :
      (ctx : Context) (body : Option UpdateRequest) (a : App) (x : Result UrlCheck × World)
      → AppIsKept a
      → IsRead a.world x
      → AppIsKept (after_get env ctx body a x).1
  unfolding merge
  after_get-IsKept ctx body a (err e, w) k r = subst (IsKept a.checker) (sym r.same) k
  after_get-IsKept ctx none a (ok ch, w) k r = subst (IsKept a.checker) (sym r.same) k
  after_get-IsKept ctx (some q) a (ok ch, w) k r = after_change-IsKept a (merge q ch) _ (
      update-IsKept env ctx (merge q ch) a.checker w (rw r.same (r.given ch refl))
        (subst (IsKept a.checker) (sym r.same) k))

  by_id-IsKept :
      (ctx : Context) (m : Method) (body : Option UpdateRequest) (id : ℕ) (a : App)
      → AppIsKept a
      → AppIsKept (by_id env ctx m body id a).1
  unfolding update_url_check_handler
  by_id-IsKept ctx get_method body id a k = k
  by_id-IsKept ctx post_method body id a k = k
  by_id-IsKept ctx put_method body id a k =
      after_get-IsKept ctx body a _ k (get_url_check-IsRead id a.world k.rows)
  by_id-IsKept ctx delete_method body id a k =
      after_remove-IsKept a _ (remove-IsKept env ctx id a.checker a.world k)
  by_id-IsKept ctx other_method body id a k = k

  by_parsed_id-IsKept :
      (ctx : Context) (m : Method) (body : Option UpdateRequest) (id : Option ℤ) (a : App)
      → AppIsKept a
      → AppIsKept (by_parsed_id env ctx m body id a).1
  by_parsed_id-IsKept ctx m body none a k = k
  by_parsed_id-IsKept ctx m body (some id) a k = by_id-IsKept ctx m body (row_id id) a k

  -- A statement that leaves the rows of url_checks as they are.
  record IsApart (w w' : World) : Type 0 where
    next : w'.tables.next_check ≡ w.tables.next_check
    rows : w'.tables.url_checks ≡ w.tables.url_checks

  insert_url_result-IsApart : (r : UrlResult) (w : World) → IsApart w (insert_url_result env r w).1
  unfolding insert_url_result
  insert_url_result-IsApart r w = record { next = ground arith; rows = ground arith }

  url_uptime-IsApart : (id since : ℕ) (w : World) → IsApart w (url_uptime env id since w).1
  unfolding url_uptime
  url_uptime-IsApart id since w = record { next = ground arith; rows = ground arith }

  do_and_store-IsKept :
      (ch : UrlCheck) (answer : Answer) (a : App)
      → AppIsKept a
      → AppIsKept (serve env (probes ch answer) a)
  unfolding serve do_and_store
  do_and_store-IsKept ch answer a k =
      let w = a.world in
      let r = record (do_check (env.clock w.reads) ch answer) { url = ch.url; label = ch.label } in
      let w1 = record w { reads = suc w.reads } in
      let w2 = (insert_url_result env (row_of r) w1).1 in
      let s = insert_url_result-IsApart (row_of r) w1 in
      let u =
        url_uptime-IsApart ch.id (env.clock w2.reads - day) (record w2 { reads = suc w2.reads }) in
      record {
        tidy = do_and_store-IsTidy env ch answer a.checker w k.tidy;
        ids = subst (λ n. IdsBelow n a.checker) (sym (u.next ∙ s.next)) k.ids;
        rows =
            subst (λ n. RowsBelow n (serve env (probes ch answer) a).world.tables.url_checks)
              (sym (u.next ∙ s.next))
              (subst (RowsBelow w.tables.next_check) (sym (u.rows ∙ s.rows)) k.rows);
      }

  pub serve-IsKept : (r : Request) (a : App) → AppIsKept a → AppIsKept (serve env r a)
  unfolding serve handle_url_check_by_id
  serve-IsKept (asks_all ctx m body) a k = handle_url_checks-IsKept ctx m body a k
  serve-IsKept (asks_one ctx m id body) a k = by_parsed_id-IsKept ctx m body (parse_int id) a k
  serve-IsKept (probes ch answer) a k = do_and_store-IsKept ch answer a k

  -- Take any sequence of requests on the URL checks, good or bad, that do not overlap, and of
  -- probes by the checker's goroutines, with any statements failing. If at first the checker is
  -- tidy and its ids and the rows' were given out by the database, then so it is at the end: in
  -- particular at most one goroutine runs per id, each one that runs is the one that the map
  -- holds, and no summary's history is longer than 20.
  pub serve_all-IsKept :
      (rs : List Request) (a : App) → AppIsKept a → AppIsKept (serve_all env rs a)
  unfolding serve_all
  serve_all-IsKept [] a k = k
  serve_all-IsKept (r ∷ rs) a k = serve_all-IsKept rs (serve env r a) (serve-IsKept r a k)
