-- ===== src/Http/Entry.antt =====
-- The flag `--basic-auth` of internal/config/config.go, the middleware and the table of patterns of
-- internal/http/routes.go together: which requests reach which handler.
use monitoring.Base.{
  ◌==◌, if◌then◌else◌, All, Text, bytes, text_discrete, ℕ, ◌≡◌, refl, sym, ap, ◌∙◌, ◌≢◌, Bool, true,
  false, Option, none, some, List, [], ◌∷◌, ◌++◌,
}
use monitoring.Config.{Config, set_basic_auth}
use monitoring.Http.Table.{
  Target, metrics_target, alerts_target, acknowledge_target, url_checks_target, url_check_target,
  history_target, thresholds_target, services_target, security_target, tunnel_target, events_target,
  Route, routes, takes_method, match_path, Reply, handled, unauthorized, files, wrapped, reply_or,
  find_route, serve_route,
}
use monitoring.Http.Access.{IsHashOf, admits-credentials}

-- How a client asks for a handler.
abbrev pub method_of : Target → Text
method_of acknowledge_target = bytes "POST"
method_of url_check_target = bytes "PUT"
method_of _ = bytes "GET"

abbrev api_path : Text → List Text → List Text
api_path name rest = bytes "api" ∷ name ∷ rest

abbrev pub path_of : Target → Text → List Text
path_of metrics_target id = api_path (bytes "metrics") []
path_of alerts_target id = api_path (bytes "alerts") []
path_of acknowledge_target id = api_path (bytes "alerts") (id ∷ bytes "acknowledge" ∷ [])
path_of url_checks_target id = api_path (bytes "url-checks") []
path_of url_check_target id = api_path (bytes "url-checks") (id ∷ [])
path_of history_target id = api_path (bytes "url-checks") (id ∷ bytes "history" ∷ [])
path_of thresholds_target id = api_path (bytes "thresholds") []
path_of services_target id = api_path (bytes "services") []
path_of security_target id = api_path (bytes "security") []
path_of tunnel_target id = api_path (bytes "tunnel") []
path_of events_target id = bytes "events" ∷ []

abbrev pub values_of : Target → Text → List Text
values_of acknowledge_target id = id ∷ []
values_of url_check_target id = id ∷ []
values_of history_target id = id ∷ []
values_of _ id = []

find_route-own :
    (admitted : Bool) (h : Target) (k : ℕ) (id : Text)
    → find_route admitted routes (method_of h) (path_of h (k ∷ id))
      ≡ wrapped admitted h (values_of h (k ∷ id))
unfolding find_route match_path text_discrete
find_route-own admitted metrics_target k id = refl
find_route-own admitted alerts_target k id = refl
find_route-own admitted acknowledge_target k id = refl
find_route-own admitted url_checks_target k id = refl
find_route-own admitted url_check_target k id = refl
find_route-own admitted history_target k id = refl
find_route-own admitted thresholds_target k id = refl
find_route-own admitted services_target k id = refl
find_route-own admitted security_target k id = refl
find_route-own admitted tunnel_target k id = refl
find_route-own admitted events_target k id = refl

abbrev is_handled : Reply → Bool
is_handled (handled h ids) = true
is_handled unauthorized = false
is_handled files = false

next_refused :
    (takes : Bool) (h : Target) (values : Option (List Text)) (rest : Reply)
    → is_handled rest ≡ false
    → is_handled (if takes then reply_or false h values rest else rest) ≡ false
next_refused false h values rest e = e
next_refused true h none rest e = e
next_refused true h (some ids) rest e = refl

find_route-refused :
    (rs : List Route) (m : Text) (path : List Text)
    → is_handled (find_route false rs m path) ≡ false
unfolding find_route
find_route-refused [] m path = refl
find_route-refused (r ∷ rs) m path =
    next_refused (takes_method r.method m) r.handler (match_path r.path path) _
      (find_route-refused rs m path)

admitted_if_handled :
    (admitted : Bool) (m : Text) (path : List Text) (h : Target) (ids : List Text)
    → find_route admitted routes m path ≡ handled h ids
    → admitted ≡ true
admitted_if_handled true m path h ids e = refl
admitted_if_handled false m path h ids e = sym (find_route-refused routes m path) ∙ ap is_handled e

refused_unless : (b : Bool) → b ≢ true → b ≡ false
refused_unless false n = refl
refused_unless true n = elim (n refl) [ ]

module _ (hash : Text → Option Text) (compare : Text → Text → Bool) (u p : ℕ) (user pass : Text)
    (cfg : Config) where
  -- Let the flag `--basic-auth` be a user without a colon, a colon and a password, neither of
  -- them empty; let bcrypt hash the password, and answer yes to that hash for this password and
  -- no other. Then the flag is accepted. A request that reaches a handler has that user and that
  -- password, whatever its method and path; and for each handler, the method and the path that
  -- stand for it, with any id that is not empty, reach that handler with that id if the
  -- credentials are those, and are answered 401 if they are not.
  pub serve_route-credentials :
      (secret : Text)
      → All (λ c. (c == b':') ≡ false) (u ∷ user)
      → hash (p ∷ pass) ≡ some secret
      → IsHashOf hash compare u p user pass cfg secret
      → (c : Config) × (set_basic_auth hash ((u ∷ user) ++ b':' ∷ p ∷ pass) cfg ≡ some c)
        × ((m : Text) (path : List Text) (creds : Option (Text × Text)) (h : Target)
              (ids : List Text)
            → serve_route compare c m path creds ≡ handled h ids
            → creds ≡ some (u ∷ user, p ∷ pass))
        × ((h : Target) (k : ℕ) (id : Text)
            → (serve_route compare c (method_of h) (path_of h (k ∷ id)) (some (u ∷ user, p ∷ pass))
                ≡ handled h (values_of h (k ∷ id)))
              × ((creds : Option (Text × Text))
                  → creds ≢ some (u ∷ user, p ∷ pass)
                  → serve_route compare c (method_of h) (path_of h (k ∷ id)) creds ≡ unauthorized))
  unfolding serve_route
  serve_route-credentials secret plain hashed law =
      let (c, accepted, only) =
        admits-credentials hash compare u p user pass cfg secret plain hashed law in
      (
        c,
        accepted,
        λ m path creds h ids e. (only creds).0 (admitted_if_handled _ m path h ids e),
        λ h k id. (
          find_route-own _ h k id ∙ ap (λ b. wrapped b h (values_of h (k ∷ id))) ((only _).1 refl),
          λ creds other.
              find_route-own _ h k id
              ∙ ap (λ b. wrapped b h (values_of h (k ∷ id)))
                  (refused_unless _ (λ e. other ((only creds).0 e))),
        ),
      )
