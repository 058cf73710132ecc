-- ===== src/Storage/Schema.antt =====
-- internal/storage/schema.go: the structs, and the tables that hold them. Times are Unix seconds.
-- A row carries the fields of its struct; a table is a list, newest row first, with the value that
-- AUTOINCREMENT gives out next.
use monitoring.Base.{Float64, of_nat, Text, bytes, ℤ, ℕ, Bool, Option, List, [], ◌∷◌}

-- `Alert.Message` before `fmt.Sprintf` spells it: the format's name and its operands.
pub data Message : Type 0 where
  cpu_usage ram_usage swap_usage : Float64 → Float64 → Message
  disk_usage : Text → Float64 → Float64 → Message
  url_is_down : Text → Message

pub record Alert : Type 0 where
  pub id : ℕ
  pub kind : Text
  pub message : Message
  pub value : Float64
  pub threshold : Float64
  pub fired_at : ℕ
  pub resolved_at : Option ℕ
  pub acknowledged : Bool

pub record UrlCheck : Type 0 where
  pub id : ℕ
  pub url : Text
  pub label : Text
  pub interval_seconds : ℤ
  pub timeout_seconds : ℤ
  pub enabled : Bool
  pub created_at : ℕ

pub record UrlResult : Type 0 where
  pub id : ℕ
  pub check_id : ℕ
  pub checked_at : ℕ
  pub up : Bool
  pub status_code : Option ℕ
  pub latency_ms : Option ℕ
  pub error : Option Text

pub record SshEvent : Type 0 where
  pub id : ℕ
  pub occurred_at : ℕ
  pub event_type : Text
  pub username : Option Text
  pub source_ip : Text
  pub port : Option Text

pub record TunnelEvent : Type 0 where
  pub id : ℕ
  pub occurred_at : ℕ
  pub event_type : Text
  pub detail : Option Text

pub record IpCount : Type 0 where
  pub ip : Text
  pub count : ℕ

pub record Tables : Type 0 where
  pub alerts : List Alert
  pub next_alert : ℕ
  pub url_checks : List UrlCheck
  pub next_check : ℕ
  pub url_check_results : List UrlResult
  pub next_result : ℕ
  pub ssh_events : List SshEvent
  pub next_ssh : ℕ
  pub tunnel_events : List TunnelEvent
  pub next_tunnel : ℕ
  pub thresholds : List (Text × Float64)

-- `INSERT OR IGNORE INTO thresholds`
abbrev pub default_thresholds : List (Text × Float64)
default_thresholds =
    (bytes "cpu_pct", of_nat 90)
    ∷ (bytes "ram_pct", of_nat 85)
    ∷ (bytes "disk_pct", of_nat 90)
    ∷ (bytes "swap_pct", of_nat 80)
    ∷ (bytes "url_latency_ms", of_nat 5000)
    ∷ []

-- What `schemaSQL` makes of an empty file.
unfoldable pub new_tables : Tables
new_tables = record {
  alerts = [];
  next_alert = 1;
  url_checks = [];
  next_check = 1;
  url_check_results = [];
  next_result = 1;
  ssh_events = [];
  next_ssh = 1;
  tunnel_events = [];
  next_tunnel = 1;
  thresholds = default_thresholds;
}
