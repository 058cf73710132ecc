-- ===== src/Server/Requests.antt =====
-- The requests on /api/url-checks and the probes of the checks (internal/http/handlers.go,
-- internal/urlcheck/checker.go) beside the engine and the table alerts.
use monitoring.Base.{if_ind, parse_int, ℤ, ℕ, suc, ◌-◌, ◌≡◌, refl, Option, none, some}
use monitoring.Storage.{
  UrlCheck, UrlResult, Tables, Result, ok, err, Env, World, insert_url_check, update_url_check,
  delete_url_check, get_url_check, insert_url_result, url_uptime, TablesAreUnique,
  insert_url_check_unique, update_url_check_unique, delete_url_check_unique,
}
use monitoring.UrlCheck.Checker
use monitoring.UrlCheck.Checker.{Context, Checker, add, after_update, remove}
use monitoring.UrlCheck.Probe.{Answer, do_check, row_of, day, do_and_store}
use monitoring.Http.Messages.{
  Method, get_method, post_method, put_method, delete_method, other_method, CreateRequest,
  UpdateRequest, Response, row_id,
}
use monitoring.Http.Handlers.{
  App, list_url_checks_handler, after_add, is_empty, create_url_check, handle_url_checks, merge,
  after_change, after_get, update_url_check_handler, after_remove, by_id, by_parsed_id,
  handle_url_check_by_id,
}
use monitoring.Http.History.{Request, asks_all, asks_one, probes, serve}
use monitoring.Server.Frames.{SameAlerts, SameChecks, SameAlerts-trans, SameBoth-refl}
use monitoring.Server.Writes.{
  insert_url_check-SameAlerts, update_url_check-SameAlerts, delete_url_check-SameAlerts,
  get_url_check-Same, insert_url_result-Same, url_uptime-Same,
}

-- The alerts are as they were, and rows of url_checks without common keys stay so.
pub record Keeps (t t' : Tables) : Type 0 where
  pub alerts : SameAlerts t t'
  pub unique : TablesAreUnique t → TablesAreUnique t'

Keeps-refl : {t : Tables} → Keeps t t
Keeps-refl = record { alerts = SameBoth-refl.0; unique = λ h. h }

Keeps-trans : {t u v : Tables} → Keeps t u → Keeps u v → Keeps t v
Keeps-trans p q = record {
  alerts = SameAlerts-trans p.alerts q.alerts;
  unique = λ h. q.unique (p.unique h);
}

-- The engine and the alerts are as they were.
pub record KeepsAlerts (a b : App) : Type 0 where
  pub engine : b.engine ≡ a.engine
  pub same : Keeps a.world.tables b.world.tables

KeepsAlerts-refl : {a : App} → KeepsAlerts a a
KeepsAlerts-refl = record { engine = refl; same = Keeps-refl }

module _ (env : Env) where
  insert_url_check-Keeps :
      (u : UrlCheck) (w : World) → Keeps w.tables (insert_url_check env u w).1.tables
  insert_url_check-Keeps u w = record {
    alerts = insert_url_check-SameAlerts env u w;
    unique = insert_url_check_unique env u w;
  }

  update_url_check-Keeps :
      (u : UrlCheck) (w : World) → Keeps w.tables (update_url_check env u w).1.tables
  update_url_check-Keeps u w = record {
    alerts = update_url_check-SameAlerts env u w;
    unique = update_url_check_unique env u w;
  }

  delete_url_check-Keeps :
      (id : ℕ) (w : World) → Keeps w.tables (delete_url_check env id w).1.tables
  delete_url_check-Keeps id w = record {
    alerts = delete_url_check-SameAlerts env id w;
    unique = delete_url_check_unique env id w;
  }

  -- A statement that leaves both tables as they are.
  same-Keeps : {t t' : Tables} → SameAlerts t t' × SameChecks t t' → Keeps t t'
  same-Keeps {t} {t'} same = record {
    alerts = same.0;
    unique = λ h. rw (same.1.rows, same.1.next) h;
  }

  get_url_check-Keeps : (id : ℕ) (w : World) → Keeps w.tables (get_url_check env id w).1.tables
  get_url_check-Keeps id w = same-Keeps (get_url_check-Same env id w)

  insert_url_result-Keeps :
      (r : UrlResult) (w : World) → Keeps w.tables (insert_url_result env r w).1.tables
  insert_url_result-Keeps r w = same-Keeps (insert_url_result-Same env r w)

  url_uptime-Keeps :
      (id since : ℕ) (w : World) → Keeps w.tables (url_uptime env id since w).1.tables
  url_uptime-Keeps id since w = same-Keeps (url_uptime-Same env id since w)

  after_insert-Keeps :
      (ctx : Context) (ch : UrlCheck) (c : Checker) (x : Result ℕ × World)
      → Keeps x.1.tables (Checker.after_insert ctx ch c x).2.tables
  after_insert-Keeps ctx ch c (ok id, w) = Keeps-refl
  after_insert-Keeps ctx ch c (err e, w) = Keeps-refl

  add-Keeps :
      (ctx : Context) (ch : UrlCheck) (c : Checker) (w : World)
      → Keeps w.tables (add env ctx ch c w).2.tables
  unfolding add
  add-Keeps ctx ch c w =
      Keeps-trans (insert_url_check-Keeps ch w)
        (after_insert-Keeps ctx ch c (insert_url_check env ch w))

  after_update-Keeps :
      (ctx : Context) (ch : UrlCheck) (c : Checker) (x : Result (Unit {0}) × World)
      → Keeps x.1.tables (after_update ctx ch c x).2.tables
  after_update-Keeps ctx ch c (ok u, w) = Keeps-refl
  after_update-Keeps ctx ch c (err e, w) = Keeps-refl

  update-Keeps :
      (ctx : Context) (ch : UrlCheck) (c : Checker) (w : World)
      → Keeps w.tables (Checker.update env ctx ch c w).2.tables
  unfolding Checker.update
  update-Keeps ctx ch c w =
      Keeps-trans (update_url_check-Keeps ch w)
        (after_update-Keeps ctx ch c (update_url_check env ch w))

  remove-Keeps : (id : ℕ) (c : Checker) (w : World) → Keeps w.tables (remove env id c w).2.tables
  unfolding remove
  remove-Keeps id c w = delete_url_check-Keeps id w

  after_add-KeepsAlerts :
      (a : App) (x : Checker × Result UrlCheck × World)
      → Keeps a.world.tables x.2.tables
      → KeepsAlerts a (after_add a x).1
  after_add-KeepsAlerts a (c, ok ch, w) h = record { engine = refl; same = h }
  after_add-KeepsAlerts a (c, err e, w) h = record { engine = refl; same = h }

  create-KeepsAlerts :
      (ctx : Context) (body : Option CreateRequest) (a : App)
      → KeepsAlerts a (create_url_check env ctx body a).1
  unfolding create_url_check
  create-KeepsAlerts ctx none a = KeepsAlerts-refl
  create-KeepsAlerts ctx (some r) a =
      if_ind (λ (x : Response × App). KeepsAlerts a x.1) (is_empty r.url) _ _
        (λ e. KeepsAlerts-refl) (λ e. after_add-KeepsAlerts a _ (add-Keeps ctx _ a.checker _))

  all-KeepsAlerts :
      (ctx : Context) (m : Method) (body : Option CreateRequest) (a : App)
      → KeepsAlerts a (handle_url_checks env ctx m body a).1
  unfolding handle_url_checks list_url_checks_handler
  all-KeepsAlerts ctx get_method body a = KeepsAlerts-refl
  all-KeepsAlerts ctx post_method body a = create-KeepsAlerts ctx body a
  all-KeepsAlerts ctx put_method body a = KeepsAlerts-refl
  all-KeepsAlerts ctx delete_method body a = KeepsAlerts-refl
  all-KeepsAlerts ctx other_method body a = KeepsAlerts-refl

  after_change-KeepsAlerts :
      (a : App) (ch : UrlCheck) (x : Checker × Result (Unit {0}) × World)
      → Keeps a.world.tables x.2.tables
      → KeepsAlerts a (after_change a ch x).1
  after_change-KeepsAlerts a ch (c, ok u, w) h = record { engine = refl; same = h }
  after_change-KeepsAlerts a ch (c, err e, w) h = record { engine = refl; same = h }

  after_remove-KeepsAlerts :
      (a : App) (x : Checker × Result (Unit {0}) × World)
      → Keeps a.world.tables x.2.tables
      → KeepsAlerts a (after_remove a x).1
  after_remove-KeepsAlerts a (c, ok u, w) h = record { engine = refl; same = h }
  after_remove-KeepsAlerts a (c, err e, w) h = record { engine = refl; same = h }

  after_get-KeepsAlerts :
      (ctx : Context) (body : Option UpdateRequest) (a : App) (x : Result UrlCheck × World)
      → Keeps a.world.tables x.1.tables
      → KeepsAlerts a (after_get env ctx body a x).1
  after_get-KeepsAlerts ctx body a (err e, w) h = record { engine = refl; same = h }
  after_get-KeepsAlerts ctx none a (ok ch, w) h = record { engine = refl; same = h }
  after_get-KeepsAlerts ctx (some q) a (ok ch, w) h =
      after_change-KeepsAlerts a (merge q ch) _
        (Keeps-trans h (update-Keeps ctx (merge q ch) a.checker w))

  by_id-KeepsAlerts :
      (ctx : Context) (m : Method) (body : Option UpdateRequest) (id : ℕ) (a : App)
      → KeepsAlerts a (by_id env ctx m body id a).1
  unfolding update_url_check_handler
  by_id-KeepsAlerts ctx get_method body id a = KeepsAlerts-refl
  by_id-KeepsAlerts ctx post_method body id a = KeepsAlerts-refl
  by_id-KeepsAlerts ctx put_method body id a =
      after_get-KeepsAlerts ctx body a _ (get_url_check-Keeps id a.world)
  by_id-KeepsAlerts ctx delete_method body id a =
      after_remove-KeepsAlerts a _ (remove-Keeps id a.checker a.world)
  by_id-KeepsAlerts ctx other_method body id a = KeepsAlerts-refl

  one-KeepsAlerts :
      (ctx : Context) (m : Method) (body : Option UpdateRequest) (id : Option ℤ) (a : App)
      → KeepsAlerts a (by_parsed_id env ctx m body id a).1
  one-KeepsAlerts ctx m body none a = KeepsAlerts-refl
  one-KeepsAlerts ctx m body (some id) a = by_id-KeepsAlerts ctx m body (row_id id) a

  probe-KeepsAlerts :
      (ch : UrlCheck) (answer : Answer) (a : App) → KeepsAlerts a (serve env (probes ch answer) a)
  unfolding serve do_and_store
  probe-KeepsAlerts ch answer a =
      let w = a.world in
      let r = record (do_check (env.clock w.reads) ch answer) { url = ch.url; label = ch.label } in
      let w1 = record w { reads = suc w.reads } in
      let w2 = (insert_url_result env (row_of r) w1).1 in
      record {
        engine = refl;
        same = Keeps-trans (insert_url_result-Keeps (row_of r) w1) (
            url_uptime-Keeps ch.id (env.clock w2.reads - day) (record w2 { reads = suc w2.reads }));
      }

  pub serve-KeepsAlerts : (r : Request) (a : App) → KeepsAlerts a (serve env r a)
  unfolding serve handle_url_check_by_id
  serve-KeepsAlerts (asks_all ctx m body) a = all-KeepsAlerts ctx m body a
  serve-KeepsAlerts (asks_one ctx m id body) a = one-KeepsAlerts ctx m body (parse_int id) a
  serve-KeepsAlerts (probes ch answer) a = probe-KeepsAlerts ch answer a
