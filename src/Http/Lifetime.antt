-- ===== src/Http/Lifetime.antt =====
-- `createURLCheck` of internal/http/handlers.go: the context that the goroutine of a new check runs under,
-- and how long it runs.
use monitoring.Base.{
  if◌then◌else◌, Option-cases, lookup, insert, ℕ, suc, ◌≡◌, refl, ap, ◌∙◌, inl, inr, true, false,
  none, some, [], ◌∷◌, arith, ℕ_discrete,
}
use monitoring.Storage.{
  UrlCheck, Tables, ok, Env, World, IsReliable, exec, url_taken, insert_url_check,
}
use monitoring.UrlCheck
use monitoring.UrlCheck.Checker.{Context, request, Checker, new_summary, start_check, add}
use monitoring.UrlCheck.Running.{running, IsTidy, none_running, running-start_check}
use monitoring.UrlCheck.Numbers.{IsKept}
use monitoring.Http.Messages.{post_method, CreateRequest, check_row, write_json}
use monitoring.Http.Handlers.{
  App, value_or, new_check, is_empty, create_url_check, handle_url_checks,
}
use monitoring.Http.History.{AppIsKept}

-- An id above those of the map has no goroutine.
none_at_next :
    (c : Checker) (t : Tables) → IsKept c t → lookup ℕ_discrete t.next_check c.checks ≡ none
none_at_next c t k = elim (Option-cases (lookup ℕ_discrete t.next_check c.checks)) [
  | inl e ↦ e
  | inr (h, e) ↦ absurd (omega (arith, k.ids t.next_check h e))
]

-- The row that a request makes, under the id that the database gives it.
abbrev pub created_row : CreateRequest → ℕ → ℕ → UrlCheck
created_row r time id = record (new_check r time) { id = id }

after_insert-running :
    (ctx : Context) (ch : UrlCheck) (id : ℕ) (c : Checker) (w : World)
    → ch.enabled ≡ true
    → lookup ℕ_discrete id c.checks ≡ none
    → IsTidy c
    → running id (UrlCheck.Checker.after_insert ctx ch c (ok id, w)).0
      ≡ record {
        handle = c.next_worker;
        check = record ch { id = id };
        context = ctx;
        stopped = false;
      }
        ∷ []
after_insert-running ctx ch id c w e f t =
    let ch' = record ch { id = id } in
    let c' = record c { summaries = insert ℕ_discrete id (new_summary ch') c.summaries } in
    ap (λ b. running id (if b then start_check ctx ch' c' else c')) e
    ∙ running-start_check ctx ch' c' id
    ∙ ground (arith, none_running id c.checks c.workers t.owned f)

insert_url_check-eq :
    (env : Env) (u : UrlCheck) (w : World)
    → env.faults w.calls ≡ none
    → url_taken w.tables.next_check u.url w.tables.url_checks ≡ false
    → insert_url_check env u w ≡ (
      ok w.tables.next_check,
      record w {
        tables = record w.tables {
          url_checks = record u { id = w.tables.next_check } ∷ w.tables.url_checks;
          next_check = suc w.tables.next_check;
        };
        calls = suc w.calls;
      },
    )
unfolding insert_url_check
insert_url_check-eq env u w e free = rw (e, free, exec) refl

-- If all statements succeed, then a request to create a check with a url that no row has, which
-- is to be enabled, answers 201 with the row, and one goroutine runs for it: its context is that
-- of the request, whatever the request is.
pub create-running :
    (env : Env) (i : ℕ) (r : CreateRequest) (a : App)
    → IsReliable env
    → AppIsKept a
    → is_empty r.url ≡ false
    → url_taken a.world.tables.next_check r.url a.world.tables.url_checks ≡ false
    → value_or r.enabled true ≡ true
    → let id = a.world.tables.next_check in
      let row = created_row r (env.clock a.world.reads) id in
      let (answer, b) = handle_url_checks env (request i) post_method (some r) a in
      (answer ≡ write_json 201 (check_row row))
      × (running id b.checker
          ≡ record {
            handle = a.checker.next_worker;
            check = row;
            context = request i;
            stopped = false;
          }
            ∷ [])
unfolding handle_url_checks create_url_check new_check add
create-running env i r a reliable k named free enabled =
    rw (named, create_url_check)
      (let w = record a.world { reads = suc a.world.reads } in
        let ch = new_check r (env.clock a.world.reads) in
        let e = insert_url_check-eq env ch w (reliable a.world.calls) free in
        rw (e, add)
          (
            refl,
            after_insert-running (request i) ch w.tables.next_check a.checker w enabled
                (none_at_next a.checker a.world.tables k) k.tidy,
          ))
