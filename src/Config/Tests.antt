-- ===== src/Config/Tests.antt =====
-- internal/config/config.go with the flags of a usual call.
use monitoring.Base.{Text, bytes, pos, ◌≡◌, refl, true, Option, none, some, [], ◌∷◌, arith}
use monitoring.Config.{default_flags, parse_flags}
use monitoring.Config.Names.{spaces, Piece, join_comma, parse_flags-names}

abbrev no_hash : Text → Option Text
no_hash pass = none

abbrev nginx : Piece
nginx = record { before = 0; name = bytes "nginx"; after = 1 }

abbrev ssh : Piece
ssh = record { before = 2; name = bytes "ssh"; after = 0 }

flag_text : join_comma nginx (ssh ∷ []) ≡ bytes "nginx ,  ssh"
unfolding join_comma spaces
flag_text = refl

parse_flags-names_example :
    parse_flags no_hash
      (λ d. true)
      (record default_flags { basic_auth = []; services = join_comma nginx (ssh ∷ []) })
    ≡ some (record {
      host = bytes "0.0.0.0";
      port = pos 47291;
      data_dir = bytes "./data";
      basic_auth_user = [];
      basic_auth_hash = none;
      services = bytes "nginx" ∷ bytes "ssh" ∷ [];
      log_level = bytes "info";
    })
parse_flags-names_example =
    parse_flags-names no_hash (λ d. true) default_flags nginx (ssh ∷ [])
      ((refl, ground arith), ((refl, ground arith), tt)) refl
