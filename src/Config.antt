-- ===== src/Config.antt =====
-- internal/config/config.go: the configuration, from the values that the package flag finds. What bcrypt
-- makes of a password is an argument, none where it refuses it, and so is whether the directory can be
-- made; `log.Fatal` is the answer none. TrimSpace is written for the ASCII spaces.
pub mod Names
pub mod Tests
use monitoring.Base.{
  leb, ◌==◌, if◌then◌else◌, is_some, decimal, keep, Text, bytes, ℤ, pos, negsuc, ℕ, suc, Bool, true,
  false, ◌&&◌, ◌||◌, Option, none, some, List, [], ◌∷◌, ◌++◌, map,
}

-- A nil hash is none.
pub record Config : Type 0 where
  pub host : Text
  pub port : ℤ
  pub data_dir : Text
  pub basic_auth_user : Text
  pub basic_auth_hash : Option Text
  pub services : List Text
  pub log_level : Text

unfoldable pub auth_enabled : Config → Bool
auth_enabled c = is_some c.basic_auth_hash

-- `%d` for an int
abbrev pub decimal_int : ℤ → Text
decimal_int (pos n) = decimal n
decimal_int (negsuc n) = b'-' ∷ decimal (suc n)

-- `fmt.Sprintf("%s:%d", host, port)`
unfoldable pub host_and_port : Text → ℤ → Text
host_and_port host port = host ++ (b':' ∷ decimal_int port)

unfoldable pub addr : Config → Text
unfolding host_and_port
addr c = host_and_port c.host c.port

abbrev add_front : ℕ → Option (Text × Text) → Option (Text × Text)
add_front c none = none
add_front c (some (before, after)) = some (c ∷ before, after)

-- `strings.Cut(s, ":")`
unfoldable pub cut_colon : Text → Option (Text × Text)
cut_colon [] = none
cut_colon (c ∷ s) = let rest = cut_colon s in if c == b':' then some ([], s) else add_front c rest

abbrev set_hash : Text → Config → Option Text → Option Config
set_hash user c none = none
set_hash user c (some hash) =
    some (record c { basic_auth_user = user; basic_auth_hash = some hash })

abbrev set_user : (Text → Option Text) → Config → Option (Text × Text) → Option Config
set_user hash c none = none
set_user hash c (some ([], pass)) = none
set_user hash c (some (u ∷ user, [])) = none
set_user hash c (some (u ∷ user, p ∷ pass)) = set_hash (u ∷ user) c (hash (p ∷ pass))

unfoldable pub set_basic_auth : (Text → Option Text) → Text → Config → Option Config
set_basic_auth hash [] c = some c
set_basic_auth hash (b ∷ auth) c = set_user hash c (cut_colon (b ∷ auth))

abbrev add_piece : ℕ → List Text → List Text
add_piece c [] = (c ∷ []) ∷ []
add_piece c (p ∷ ps) = (c ∷ p) ∷ ps

-- `strings.Split(s, ",")`: one piece more than there are commas.
unfoldable pub split_comma : Text → List Text
split_comma [] = [] ∷ []
split_comma (c ∷ s) = let rest = split_comma s in if c == b',' then [] ∷ rest else add_piece c rest

abbrev pub is_space : ℕ → Bool
is_space c = c == 32 || (leb 9 c && leb c 13)

abbrev pub trim_left : Text → Text
trim_left [] = []
trim_left (c ∷ s) = let rest = trim_left s in if is_space c then rest else c ∷ s

abbrev pub keep_unless_blank : ℕ → Text → Text
keep_unless_blank c [] = if is_space c then [] else c ∷ []
keep_unless_blank c (d ∷ s) = c ∷ d ∷ s

abbrev pub trim_right : Text → Text
trim_right [] = []
trim_right (c ∷ s) = keep_unless_blank c (trim_right s)

abbrev pub is_name : Text → Bool
is_name [] = false
is_name (c ∷ s) = true

-- `strings.TrimSpace`
unfoldable pub trim_space : Text → Text
trim_space s = trim_right (trim_left s)

unfoldable pub set_services : Text → Config → Config
set_services [] c = c
set_services (b ∷ names) c = record c {
  services = c.services ++ keep is_name (map trim_space (split_comma (b ∷ names)));
}

-- The values of the flags.
pub record Flags : Type 0 where
  pub host : Text
  pub port : ℤ
  pub data_dir : Text
  pub log_level : Text
  pub basic_auth : Text
  pub services : Text

-- The flags that are not given.
abbrev pub default_flags : Flags
default_flags = record {
  host = bytes "0.0.0.0";
  port = pos 47291;
  data_dir = bytes "./data";
  log_level = bytes "info";
  basic_auth = [];
  services = [];
}

abbrev pub config_of : Flags → Config
config_of f = record {
  host = f.host;
  port = f.port;
  data_dir = f.data_dir;
  basic_auth_user = [];
  basic_auth_hash = none;
  services = [];
  log_level = f.log_level;
}

abbrev pub with_services : Text → Bool → Option Config → Option Config
with_services names made none = none
with_services names made (some c) = if made then some (set_services names c) else none

unfoldable pub parse_flags : (Text → Option Text) → (Text → Bool) → Flags → Option Config
unfolding set_basic_auth set_services
parse_flags hash made f =
    with_services f.services (made f.data_dir) (set_basic_auth hash f.basic_auth (config_of f))
