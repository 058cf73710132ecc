-- ===== src/Http/Routes.antt =====
-- internal/http/routes.go: the middleware. A request's credentials are none where BasicAuth finds none;
-- what bcrypt answers to a hash and a password is an argument.
use monitoring.Base.{
  if◌then◌else◌, Text, text_discrete, ℕ, ite, Bool, true, false, ◌&&◌, Option, none, some, List, [],
  ◌∷◌,
}
use monitoring.Config.{Config, auth_enabled}

-- The code of the answer that the log line shows; a handler that writes none answers 200.
unfoldable pub logged_code : ℕ → List ℕ → ℕ
logged_code code [] = code
logged_code code (c ∷ rest) = logged_code c rest

abbrev pub status_ok : ℕ
status_ok = 200

abbrev pub hash_or_nil : Option Text → Text
hash_or_nil none = []
hash_or_nil (some hash) = hash

-- `withBasicAuth`: whether the next handler is called; it answers 401 otherwise.
unfoldable pub with_basic_auth : (Text → Text → Bool) → Config → Option (Text × Text) → Bool
with_basic_auth compare cfg none = false
with_basic_auth compare cfg (some (user, pass)) =
    (ite (text_discrete user cfg.basic_auth_user) true false)
    && compare (hash_or_nil cfg.basic_auth_hash) pass

-- `wrap`: without a hash every request passes.
unfoldable pub admits : (Text → Text → Bool) → Config → Option (Text × Text) → Bool
unfolding with_basic_auth auth_enabled
admits compare cfg creds = if auth_enabled cfg then with_basic_auth compare cfg creds else true
