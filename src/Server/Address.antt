-- ===== src/Server/Address.antt =====
-- cmd/server/main.go: the address in the line that the start logs.
use monitoring.Base.{if◌then◌else◌, Text, bytes, text_discrete, ℤ, ite, Bool, true, false, ◌||◌, []}
use monitoring.Config.{host_and_port, trim_space}

abbrev same_text : Text → Text → Bool
same_text s t = ite (text_discrete s t) true false

-- The cases of the switch.
abbrev is_any_host : Text → Bool
is_any_host host =
    same_text host []
    || (same_text host (bytes "0.0.0.0")
        || (same_text host (bytes "::") || same_text host (bytes "[::]")))

unfoldable pub display_addr : Text → ℤ → Text
unfolding host_and_port trim_space
display_addr host port =
    let trimmed = trim_space host in
    host_and_port (if is_any_host trimmed then bytes "127.0.0.1" else trimmed) port
