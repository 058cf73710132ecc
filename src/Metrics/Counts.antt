-- ===== src/Metrics/Counts.antt =====
-- `CollectNetwork` of internal/metrics/network.go against counts over the whole list, and `itoa`
-- against the decimal numerals of the package fmt.
use mathlib.Core.List.{append_assoc, append-nil}
use monitoring.Base.{
  ◌==◌, if◌then◌else◌, decimal, decimal_step, decimal_digit, length, take, count, All, Text, bytes,
  text_discrete, ℕ, zero, suc, ◌+◌, ◌-◌, ◌*◌, ◌/◌, ◌%◌, ◌^◌, ◌<◌, ◌≡◌, refl, ap, ◌∙◌, ◌≢◌, ite,
  Bool, true, false, some, List, [], ◌∷◌, ◌++◌, map, arith, dec_lt,
}
use monitoring.Metrics.Network.{
  Address, Connection, ConnStat, NetworkSnapshot, itoa_loop, buffer_size, itoa, join_port,
  host_port, address, conn_stat, established, listen, tally_status, tally, max_detail, add_conn,
  add_conns, collect_network,
}

tenth_below : (n q : ℕ) → n < q * 10 → n / 10 < q
tenth_below n q h = omega arith

itoa_loop-zero : (at : ℕ) (buf : Text) → itoa_loop at 0 buf ≡ some buf
unfolding itoa_loop
itoa_loop-zero zero buf = refl
itoa_loop-zero (suc at) buf = refl

itoa_loop-decimal :
    (at n : ℕ) (buf : Text) → 0 < n → n < 10 ^ at → itoa_loop at n buf ≡ some (decimal n ++ buf)
unfolding itoa_loop
itoa_loop-decimal zero n buf h k = absurd (omega arith)
itoa_loop-decimal (suc at) n buf h k = elim (dec_lt n 10) [
  | yes small ↦
      rw (decimal_digit n small) (ground (arith, itoa_loop-zero at ((b'0' + n % 10) ∷ buf)))
  | no large ↦ rw (decimal_step n (omega arith)) (
      ground (
        arith,
        itoa_loop-decimal at (n / 10) ((b'0' + n % 10) ∷ buf) (omega arith)
            (tenth_below n (10 ^ at) (omega arith)),
        append_assoc (decimal (n / 10)) ((b'0' + n % 10) ∷ []) buf,
      ))
]

-- For every uint32 `itoa` stays within its buffer of ten bytes and spells the number in decimal,
-- as the package fmt does.
pub itoa-decimal : (n : ℕ) → n < 2 ^ 32 → itoa n ≡ some (decimal n)
unfolding itoa
itoa-decimal n h = elim (dec_lt 0 n) [
  | yes p ↦
      ground (arith, itoa_loop-decimal buffer_size n [] p (omega arith), append-nil (decimal n))
  | no z ↦ rw (decimal_digit n (omega arith)) (ground arith)
]

-- An address as the library's own formatting spells it.
abbrev pub plain_host : Text → ℕ → Text
plain_host [] port = []
plain_host (c ∷ s) port = (c ∷ s) ++ bytes ":" ++ decimal port

abbrev pub plain_address : Address → Text
plain_address a = plain_host a.ip a.port

abbrev pub plain_stat : Connection → ConnStat
plain_stat c = record {
  proto = if c.type == 2 then bytes "udp" else bytes "tcp";
  local_addr = plain_address c.laddr;
  remote_addr = plain_address c.raddr;
  state = c.status;
}

-- Ports are of type uint32.
abbrev pub HasPorts : Connection → Type 0
HasPorts c = (c.laddr.port < 2 ^ 32) × (c.raddr.port < 2 ^ 32)

abbrev pub is_status : Text → Text → Bool
is_status k status = ite (text_discrete status k) true false

abbrev pub has_status : Text → Connection → Bool
has_status k c = is_status k c.status

join-plain :
    (s : Text) (n : ℕ) → n < 2 ^ 32 → join_port s (itoa n) ≡ some (s ++ bytes ":" ++ decimal n)
join-plain s n h = rw (itoa-decimal n h) refl

host_port-plain : (s : Text) (n : ℕ) → n < 2 ^ 32 → host_port s (n) ≡ some (plain_host s n)
host_port-plain [] n h = refl
host_port-plain (c ∷ s) n h = join-plain (c ∷ s) n h

conn_stat-plain : (c : Connection) → HasPorts c → conn_stat c ≡ some (plain_stat c)
unfolding conn_stat address
conn_stat-plain c h =
    rw
      (
        host_port-plain c.laddr.ip c.laddr.port h.0,
        host_port-plain c.raddr.ip c.raddr.port h.1,
        conn_stat,
        address,
      )
      refl

abbrev one_if : Bool → ℕ
one_if b = if b then 1 else 0

abbrev counted_status : Text → NetworkSnapshot → NetworkSnapshot
counted_status status snap = record snap {
  tcp_established = snap.tcp_established + one_if (is_status established status);
  tcp_listening = snap.tcp_listening + one_if (is_status listen status);
}

listen_apart : listen ≢ established
listen_apart e = omega (arith, ap length e)

tally_status-eq :
    (status : Text) (snap : NetworkSnapshot) → tally_status status snap ≡ counted_status status snap
tally_status-eq status snap = elim (text_discrete status established) [
  | yes e ↦ ground (arith, listen_apart)
  | no ne ↦ ground arith
]

take_nil : (n : ℕ) → take {A = Connection} n [] ≡ []
take_nil zero = refl
take_nil (suc n) = refl

-- What the loop makes of a snapshot, from the index `i` on.
abbrev counted : ℕ → List Connection → NetworkSnapshot → NetworkSnapshot
counted i cs snap = record {
  active_conns = snap.active_conns;
  tcp_established = snap.tcp_established + count (has_status established) cs;
  tcp_listening = snap.tcp_listening + count (has_status listen) cs;
  connections = snap.connections ++ map plain_stat (take (max_detail - i) cs);
}

detail_left :
    (i : ℕ) (c : Connection) (cs : List Connection)
    → i < max_detail
    → take (max_detail - i) (c ∷ cs) ≡ c ∷ take (max_detail - suc i) cs
detail_left i c cs h =
    let e : max_detail - i ≡ suc (max_detail - suc i) = omega arith in ap (λ k. take k (c ∷ cs)) e

no_detail_left : (i : ℕ) (cs : List Connection) → ¬ (i < max_detail) → take (max_detail - i) cs ≡ []
no_detail_left i cs h = let e : max_detail - i ≡ 0 = omega arith in ap (λ k. take k cs) e

add_conn-detail :
    (i : ℕ) (c : Connection) (snap : NetworkSnapshot)
    → i < max_detail
    → HasPorts c
    → add_conn i c snap
      ≡ some (record (counted_status c.status snap) {
        connections = snap.connections ++ plain_stat c ∷ [];
      })
unfolding add_conn tally
add_conn-detail i c snap p h =
    rw (conn_stat-plain c h, tally_status-eq c.status snap, add_conn, tally) (ground arith)

add_conn-plain :
    (i : ℕ) (c : Connection) (snap : NetworkSnapshot)
    → ¬ (i < max_detail)
    → add_conn i c snap ≡ some (counted_status c.status snap)
unfolding add_conn tally
add_conn-plain i c snap p = rw (tally_status-eq c.status snap, add_conn, tally) (ground arith)

add_conns-counted :
    (i : ℕ) (cs : List Connection) (snap : NetworkSnapshot)
    → All HasPorts cs
    → add_conns i cs snap ≡ some (counted i cs snap)
unfolding add_conns
add_conns-counted i [] snap h =
    ground (arith, append-nil snap.connections, take_nil (max_detail - i))
add_conns-counted i (c ∷ cs) snap h = elim (dec_lt i max_detail) [
  | yes p ↦
      rw (add_conn-detail i c snap p h.0, add_conns)
        (add_conns-counted (suc i) cs _ h.1
          ∙ ground (
            arith,
            detail_left i c cs p,
            append_assoc snap.connections (plain_stat c ∷ [])
                (map plain_stat (take (max_detail - suc i) cs)),
          ))
  | no p ↦
      rw (add_conn-plain i c snap p, add_conns)
        (add_conns-counted (suc i) cs _ h.1
          ∙ ground (arith, no_detail_left i (c ∷ cs) p, no_detail_left (suc i) cs (omega arith)))
]

-- For connections whose ports are below 2 to the 32, `CollectNetwork` does not panic, and its
-- summary is: how many connections there are, how many of them are established and how many
-- listen, and the details of the first 100, in order, with ports in decimal.
pub collect_network-counts :
    (conns : List Connection)
    → All HasPorts conns
    → collect_network (some conns)
      ≡ some (record {
        active_conns = length conns;
        tcp_established = count (has_status established) conns;
        tcp_listening = count (has_status listen) conns;
        connections = map plain_stat (take max_detail conns);
      })
unfolding collect_network
collect_network-counts conns h = add_conns-counted 0 conns _ h ∙ ground arith
