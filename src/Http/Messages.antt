-- ===== src/Http/Messages.antt =====
-- internal/http/handlers.go: requests as the handlers read them, and the answers that `writeJSON` and
-- `writeError` send. A body that `json.Decode` refuses is `none`.
use monitoring.Base.{Float64, Text, bytes, ℤ, pos, negsuc, ℕ, Bool, Option, List}
use monitoring.Storage.{Alert, UrlCheck, UrlResult, Error}
use monitoring.UrlCheck.Checker.{CheckResult, Summary}

pub data Method : Type 0 where
  get_method post_method put_method delete_method other_method : Method

-- The struct that `createURLCheck` decodes into.
pub record CreateRequest : Type 0 where
  pub url : Text
  pub label : Text
  pub interval_seconds : ℤ
  pub timeout_seconds : ℤ
  pub enabled : Option Bool

-- The struct that `updateURLCheck` decodes into: a field that is absent is nil.
pub record UpdateRequest : Type 0 where
  pub url : Option Text
  pub label : Option Text
  pub interval_seconds : Option ℤ
  pub timeout_seconds : Option ℤ
  pub enabled : Option Bool

-- An item of the answer of `listURLChecks`.
pub record Item : Type 0 where
  pub check : UrlCheck
  pub last_result : Option CheckResult
  pub uptime_pct : Float64

pub data Body : Type 0 where
  message : Text → Body
  failed : Error → Body
  done : Body
  alert_lists : List Alert → List Alert → Body
  check_row : UrlCheck → Body
  items : List Item → Body
  summary : Summary → Body
  results : List UrlResult → Body
  threshold_map : List (Text × Float64) → Body

pub record Response : Type 0 where
  pub code : ℕ
  pub body : Body

abbrev pub write_json : ℕ → Body → Response
write_json code body = record { code = code; body = body }

abbrev pub write_error : ℕ → Text → Response
write_error code text = record { code = code; body = message text }

abbrev pub method_not_allowed : Response
method_not_allowed = write_error 405 (bytes "method not allowed")

abbrev pub invalid_id : Response
invalid_id = write_error 400 (bytes "invalid id")

abbrev pub invalid_json : Response
invalid_json = write_error 400 (bytes "invalid JSON")

abbrev pub not_found : Response
not_found = write_error 404 (bytes "not found")

abbrev pub internal_error : Error → Response
internal_error e = write_json 500 (failed e)

-- The id of a row: the tables number from 1, so that no row has a negative id or 0.
abbrev pub row_id : ℤ → ℕ
row_id (pos n) = n
row_id (negsuc n) = 0
