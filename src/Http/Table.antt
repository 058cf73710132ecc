-- ===== src/Http/Table.antt =====
-- internal/http/routes.go: the table of patterns, and the mux of net/http on it. A path is the list of its
-- segments; the mux redirects a path that is not clean, so only the last one may be empty.
use monitoring.Base.{
  if◌then◌else◌, Text, bytes, text_discrete, ite, Bool, true, false, ◌&&◌, ◌||◌, Option, none, some,
  List, [], ◌∷◌,
}
use monitoring.Config.{Config}
use monitoring.Http.Routes.{admits}

pub data Segment : Type 0 where
  word : Text → Segment
  wildcard : Segment

pub data Target : Type 0 where
  metrics_target alerts_target acknowledge_target url_checks_target url_check_target : Target
  history_target thresholds_target services_target security_target tunnel_target : Target
  events_target : Target

-- `GET /api/metrics`; a pattern without a method has none.
pub record Route : Type 0 where
  pub method : Option Text
  pub path : List Segment
  pub handler : Target

abbrev get_route : List Segment → Target → Route
get_route path handler = record { method = some (bytes "GET"); path = path; handler = handler }

abbrev any_route : List Segment → Target → Route
any_route path handler = record { method = none; path = path; handler = handler }

abbrev api : List Segment → List Segment
api path = word (bytes "api") ∷ path

-- Every pattern but `/`, which is the last, and which all the others are more specific than.
abbrev pub routes : List Route
routes =
    get_route (api (word (bytes "metrics") ∷ [])) metrics_target
    ∷ get_route (api (word (bytes "alerts") ∷ [])) alerts_target
    ∷ record {
      method = some (bytes "POST");
      path = api (word (bytes "alerts") ∷ wildcard ∷ word (bytes "acknowledge") ∷ []);
      handler = acknowledge_target;
    }
    ∷ any_route (api (word (bytes "url-checks") ∷ [])) url_checks_target
    ∷ any_route (api (word (bytes "url-checks") ∷ wildcard ∷ [])) url_check_target
    ∷ get_route (api (word (bytes "url-checks") ∷ wildcard ∷ word (bytes "history") ∷ []))
        history_target
    ∷ any_route (api (word (bytes "thresholds") ∷ [])) thresholds_target
    ∷ get_route (api (word (bytes "services") ∷ [])) services_target
    ∷ get_route (api (word (bytes "security") ∷ [])) security_target
    ∷ get_route (api (word (bytes "tunnel") ∷ [])) tunnel_target
    ∷ get_route (word (bytes "events") ∷ []) events_target
    ∷ []

abbrev pub same_text : Text → Text → Bool
same_text s t = ite (text_discrete s t) true false

-- A pattern for GET is one for HEAD as well.
abbrev pub takes_method : Option Text → Text → Bool
takes_method none m = true
takes_method (some p) m = same_text p m || (same_text p (bytes "GET") && same_text m (bytes "HEAD"))

abbrev add_value : Text → Option (List Text) → Option (List Text)
add_value v none = none
add_value v (some vs) = some (v ∷ vs)

-- What the wildcards stand for, if the path matches; a wildcard is never the empty segment.
unfoldable pub match_path : List Segment → List Text → Option (List Text)
match_path [] [] = some []
match_path [] (s ∷ path) = none
match_path (p ∷ pattern) [] = none
match_path (word t ∷ pattern) (s ∷ path) =
    let rest = match_path pattern path in if same_text t s then rest else none
match_path (wildcard ∷ pattern) ([] ∷ path) = none
match_path (wildcard ∷ pattern) ((c ∷ s) ∷ path) = add_value (c ∷ s) (match_path pattern path)

-- What the mux answers with: a handler and the values of its wildcards, 401, or the file server.
pub data Reply : Type 0 where
  handled : Target → List Text → Reply
  unauthorized files : Reply

-- `wrap` around the handler
abbrev pub wrapped : Bool → Target → List Text → Reply
wrapped admitted h ids = if admitted then handled h ids else unauthorized

abbrev pub reply_or : Bool → Target → Option (List Text) → Reply → Reply
reply_or admitted h none rest = rest
reply_or admitted h (some ids) rest = wrapped admitted h ids

unfoldable pub find_route : Bool → List Route → Text → List Text → Reply
unfolding match_path
find_route admitted [] m path = files
find_route admitted (r ∷ rs) m path =
    let rest = find_route admitted rs m path in
    if takes_method r.method m
    then reply_or admitted r.handler (match_path r.path path) rest
    else rest

-- The answer of the mux to a request with a method, a path and credentials.
unfoldable pub serve_route :
    (Text → Text → Bool) → Config → Text → List Text → Option (Text × Text) → Reply
unfolding find_route admits
serve_route compare cfg m path creds = find_route (admits compare cfg creds) routes m path
