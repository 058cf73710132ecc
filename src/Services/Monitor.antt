-- ===== src/Services/Monitor.antt =====
-- internal/services/services.go: the monitor. What `systemctl show` prints, in lines, is an argument,
-- none where the command fails, and so are the readings of a timestamp.
use monitoring.Base.{
  ltb, leb, ◌==◌, if◌then◌else◌, is_some, Text, bytes, text_discrete, tokens, stop_at, ℤ, pos,
  negsuc, ℕ, zero, suc, ◌+◌, ◌-◌, ◌*◌, ◌^◌, ite, Bool, true, false, ◌||◌, not, Option, none, some,
  List, [], ◌∷◌,
}

pub record ServiceStatus : Type 0 where
  pub name : Text
  pub active : Text
  pub sub_state : Text
  pub load_state : Text
  pub restart_count : ℤ
  pub since : Option ℕ

abbrev pub new_status : Text → ServiceStatus
new_status name = record {
  name = name;
  active = [];
  sub_state = [];
  load_state = [];
  restart_count = pos 0;
  since = none;
}

-- `DefaultServices`
abbrev pub default_services : List Text
default_services =
    bytes "nginx"
    ∷ bytes "apache2"
    ∷ bytes "postgresql"
    ∷ bytes "mysql"
    ∷ bytes "redis"
    ∷ bytes "docker"
    ∷ bytes "ssh"
    ∷ bytes "sshd"
    ∷ bytes "cloudflared"
    ∷ bytes "fail2ban"
    ∷ []

unfoldable pub new_monitor : List Text → List Text
new_monitor [] = default_services
new_monitor (s ∷ services) = s ∷ services

abbrev pub add_key_byte : ℕ → Option (Text × Text) → Option (Text × Text)
add_key_byte c none = none
add_key_byte c (some (key, value)) = some (c ∷ key, value)

-- `strings.Cut(line, "=")`
unfoldable pub cut_equals : Text → Option (Text × Text)
cut_equals [] = none
cut_equals (c ∷ s) =
    let rest = cut_equals s in if c == b'=' then some ([], s) else add_key_byte c rest

abbrev pub is_key : Text → Text → Bool
is_key key k = ite (text_discrete k key) true false

-- The digits behind those of `acc`, within uint64: a number that leaves it ends the scan, and 2 ^ 64
-- stands for it.
unfoldable pub saturated : ℕ → Text → Option ℕ
saturated acc [] = some acc
saturated acc (c ∷ s) =
    let n = acc * 10 + (c - b'0') in
    let rest = saturated n s in
    if ltb c b'0' || ltb b'9' c then none else if leb (2 ^ 64) n then some (2 ^ 64) else rest

abbrev pub clamped_positive : Option ℕ → ℤ
clamped_positive none = pos 0
clamped_positive (some n) = if ltb n (2 ^ 63) then pos n else pos (2 ^ 63 - 1)

abbrev pub minus : ℕ → ℤ
minus zero = pos 0
minus (suc n) = negsuc n

abbrev pub clamped_negative : Option ℕ → ℤ
clamped_negative none = pos 0
clamped_negative (some n) = if leb n (2 ^ 63) then minus n else negsuc (2 ^ 63 - 1)

-- `n, _ := strconv.Atoi(v)`: zero where it is no number, the nearest int where it is out of range.
unfoldable pub atoi_value : Text → ℤ
unfolding saturated
atoi_value [] = pos 0
atoi_value (c ∷ s) =
    if c == b'-'
    then clamped_negative (saturated 0 s)
    else if c == b'+'
    then clamped_positive (saturated 0 s)
    else clamped_positive (saturated 0 (c ∷ s))

abbrev pub set_since : Option ℕ → ServiceStatus → ServiceStatus
set_since none svc = svc
set_since (some t) svc = record svc { since = some t }

-- The `switch` on the key.
unfoldable pub set_property : (Text → Option ℕ) → Text → Text → ServiceStatus → ServiceStatus
set_property time k v svc =
    if is_key (bytes "ActiveState") k
    then record svc { active = v }
    else if is_key (bytes "SubState") k
    then record svc { sub_state = v }
    else if is_key (bytes "LoadState") k
    then record svc { load_state = v }
    else if is_key (bytes "NRestarts") k
    then record svc { restart_count = atoi_value v }
    else if is_key (bytes "ActiveEnterTimestamp") k
    then (if is_key [] v || is_key (bytes "n/a") v then svc else set_since (time v) svc)
    else svc

abbrev pub set_pair : (Text → Option ℕ) → Option (Text × Text) → ServiceStatus → ServiceStatus
set_pair time none svc = svc
set_pair time (some (k, v)) svc = set_property time k v svc

unfoldable pub set_lines : (Text → Option ℕ) → List Text → ServiceStatus → ServiceStatus
unfolding set_property
set_lines time [] svc = svc
set_lines time (line ∷ rest) svc = set_lines time rest (set_pair time (cut_equals line) svc)

abbrev pub unknown : Text
unknown = bytes "unknown"

-- Whether the scanner has no error.
abbrev pub scans : List Text → Bool
scans lines = not (is_some (stop_at lines))

-- The status, and whether there is no error.
unfoldable pub query_service : (Text → Option ℕ) → Text → Option (List Text) → ServiceStatus × Bool
unfolding set_lines tokens stop_at
query_service time name none = (record (new_status name) { active = unknown }, true)
query_service time name (some lines) =
    (set_lines time (tokens lines) (new_status name), scans lines)

-- The loop of `Collect`: a service with an error is left out.
unfoldable pub query_all :
    (Text → Option ℕ) → (Text → Option (List Text)) → List Text → List ServiceStatus
unfolding query_service
query_all time shown [] = []
query_all time shown (name ∷ services) =
    let (svc, fine) = query_service time name (shown name) in
    let rest = query_all time shown services in if fine then svc ∷ rest else rest

-- Without systemctl no service is asked for.
unfoldable pub collect_services :
    (Text → Option ℕ) → (Text → Option (List Text)) → Bool → List Text → List ServiceStatus
collect_services time shown available services =
    if available then query_all time shown services else []

pub record ServicesSnapshot : Type 0 where
  pub collected_at : ℕ
  pub services : List ServiceStatus
  pub systemd_available : Bool

unfoldable pub services_snapshot :
    (Text → Option ℕ) → (Text → Option (List Text)) → Bool → ℕ → List Text → ServicesSnapshot
services_snapshot time shown available at services = record {
  collected_at = at;
  services = collect_services time shown available services;
  systemd_available = available;
}
