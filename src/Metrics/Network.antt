-- ===== src/Metrics/Network.antt =====
-- internal/metrics/network.go: the summary of the connections. What the library lists is an argument,
-- none where it fails. An index out of range in `itoa` would panic: there the answer is none.
use monitoring.Base.{
  ltb, ◌==◌, if◌then◌else◌, length, Text, bytes, text_discrete, ℕ, zero, suc, ◌+◌, ◌/◌, ◌%◌, ite,
  Option, none, some, List, [], ◌∷◌, ◌++◌,
}

pub record Address : Type 0 where
  pub ip : Text
  pub port : ℕ

pub record Connection : Type 0 where
  pub status : Text
  pub laddr : Address
  pub raddr : Address
  pub type : ℕ

pub record ConnStat : Type 0 where
  pub proto : Text
  pub local_addr : Text
  pub remote_addr : Text
  pub state : Text

pub record NetworkSnapshot : Type 0 where
  pub active_conns : ℕ
  pub tcp_established : ℕ
  pub tcp_listening : ℕ
  pub connections : List ConnStat

-- The loop of `itoa`: the digits that are in the buffer from the index `at` on.
unfoldable pub itoa_loop : ℕ → ℕ → Text → Option Text
itoa_loop zero n buf = if n == 0 then some buf else none
itoa_loop (suc at) n buf =
    let rest = itoa_loop at (n / 10) ((b'0' + n % 10) ∷ buf) in if n == 0 then some buf else rest

abbrev pub buffer_size : ℕ
buffer_size = 10

unfoldable pub itoa : ℕ → Option Text
unfolding itoa_loop
itoa n = if n == 0 then some (bytes "0") else itoa_loop buffer_size n []

abbrev pub join_port : Text → Option Text → Option Text
join_port ip none = none
join_port ip (some port) = some (ip ++ bytes ":" ++ port)

-- An address without an IP is spelled as the empty string.
abbrev pub host_port : Text → ℕ → Option Text
host_port [] port = some []
host_port (c ∷ s) port = join_port (c ∷ s) (itoa port)

unfoldable pub address : Address → Option Text
address a = host_port a.ip a.port

abbrev pub make_stat : Connection → Option Text → Option Text → Option ConnStat
make_stat c none r = none
make_stat c (some l) none = none
make_stat c (some l) (some r) = some (record {
  proto = if c.type == 2 then bytes "udp" else bytes "tcp";
  local_addr = l;
  remote_addr = r;
  state = c.status;
})

unfoldable pub conn_stat : Connection → Option ConnStat
unfolding address
conn_stat c = make_stat c (address c.laddr) (address c.raddr)

abbrev pub established : Text
established = bytes "ESTABLISHED"

abbrev pub listen : Text
listen = bytes "LISTEN"

-- The `switch` on the status.
abbrev pub tally_status : Text → NetworkSnapshot → NetworkSnapshot
tally_status status snap =
    ite (text_discrete status established)
      (record snap { tcp_established = suc snap.tcp_established })
      (ite (text_discrete status listen) (record snap { tcp_listening = suc snap.tcp_listening })
        snap)

unfoldable pub tally : Connection → NetworkSnapshot → NetworkSnapshot
tally c snap = tally_status c.status snap

abbrev pub max_detail : ℕ
max_detail = 100

abbrev pub append_stat : NetworkSnapshot → Option ConnStat → Option NetworkSnapshot
append_stat snap none = none
append_stat snap (some s) = some (record snap { connections = snap.connections ++ s ∷ [] })

-- The body of the loop, at the index `i`.
unfoldable pub add_conn : ℕ → Connection → NetworkSnapshot → Option NetworkSnapshot
unfolding tally
add_conn i c snap =
    if ltb i max_detail then append_stat (tally c snap) (conn_stat c) else some (tally c snap)

infixl 5 ◌>>=?◌
abbrev pub ◌>>=?◌ : {A B : Type 0} → Option A → (A → Option B) → Option B
none >>=? f = none
(some a) >>=? f = f a

unfoldable pub add_conns : ℕ → List Connection → NetworkSnapshot → Option NetworkSnapshot
add_conns i [] snap = some snap
add_conns i (c ∷ cs) snap = add_conn i c snap >>=? add_conns (suc i) cs

abbrev pub empty_snapshot : NetworkSnapshot
empty_snapshot = record {
  active_conns = 0;
  tcp_established = 0;
  tcp_listening = 0;
  connections = [];
}

unfoldable pub collect_network : Option (List Connection) → Option NetworkSnapshot
unfolding add_conns
collect_network none = some empty_snapshot
collect_network (some conns) =
    add_conns 0 conns (record empty_snapshot { active_conns = length conns })
