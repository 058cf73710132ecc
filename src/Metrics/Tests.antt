-- ===== src/Metrics/Tests.antt =====
-- `CollectNetwork` and `itoa` at a short list, and the rates of a disk and an interface in a few samples.
use monitoring.Base.{
  one_units, to_uint64, second, seconds_units, half_even, excess, nearest, lookup, Text, bytes,
  text_discrete, ℕ, ◌-◌, ◌*◌, ◌^◌, ◌≡◌, refl, none, some, List, [], ◌∷◌, map, arith,
}
use mathlib.Core.List.{Memᴰ}
use monitoring.Metrics.Readings.{NetCounters, Readings}
use monitoring.Metrics.System.{new_collector, elapsed, disk_rates, collect_system}
use monitoring.Metrics.Sampling.{sample_all, collect_system-disk_io}
use monitoring.Metrics.Interfaces.{collect_system-network_io}
use monitoring.Metrics.Network.{
  Address, Connection, itoa_loop, itoa, established, listen, collect_network,
}
use monitoring.Metrics.Counts.{plain_stat, collect_network-counts}

abbrev local_end : Address
local_end = record { ip = bytes "127.0.0.1"; port = 8080 }

abbrev no_end : Address
no_end = record { ip = []; port = 0 }

abbrev connections_now : List Connection
connections_now =
    record { status = listen; laddr = local_end; raddr = no_end; type = 1 }
    ∷ record { status = established; laddr = local_end; raddr = local_end; type = 1 }
    ∷ []

port_text : itoa 8080 ≡ some (bytes "8080")
unfolding itoa itoa_loop
port_text = refl

collect_network-counts_example :
    collect_network (some connections_now)
    ≡ some (record {
      active_conns = 2;
      tcp_established = 1;
      tcp_listening = 1;
      connections = map plain_stat connections_now;
    })
unfolding text_discrete
collect_network-counts_example =
    collect_network-counts connections_now
      ((omega arith, omega arith), ((omega arith, omega arith), tt))

abbrev quiet : ℕ → Readings
quiet n = record {
  now = n * second;
  cpu = none;
  per_core = none;
  load = none;
  memory = none;
  swap = none;
  partitions = none;
  usage = λ m. none;
  disk_counters = none;
  net_counters = none;
  uptime = none;
}

abbrev sda : Text
sda = bytes "sda"

abbrev disk_at : ℕ → ℕ → Readings
disk_at n total = record (quiet n) {
  disk_counters = some ((sda, record { read_bytes = total; write_bytes = 7 }) ∷ []);
}

abbrev eth : ℕ → NetCounters
eth total = record { name = bytes "eth0"; bytes_sent = total; bytes_recv = total }

abbrev net_at : ℕ → ℕ → Readings
net_at n total = record (quiet n) { net_counters = some (eth total ∷ []) }

abbrev as_zero : ℕ → ℕ
as_zero a = 0

-- The counter of a disk that was reset counts as one that went round.
reset_rate :
    (collect_system as_zero
      (disk_at 4 0)
      (sample_all as_zero (disk_at 2 4096 ∷ []) new_collector)).0.disk_io
    ≡ record { device = sda; read_bytes_sec = 2 ^ 63 - 2048; write_bytes_sec = 0 } ∷ []
unfolding collect_system sample_all new_collector disk_rates elapsed seconds_units text_discrete
    lookup to_uint64 nearest half_even excess one_units
reset_rate = refl

-- Four thousand bytes in four seconds, with a failure after two of them.
collect_system-disk_io_example :
    Memᴰ
      (record { device = sda; read_bytes_sec = 2000; write_bytes_sec = 0 })
      (collect_system as_zero
        (disk_at 14 5000)
        (sample_all as_zero (disk_at 10 1000 ∷ quiet 12 ∷ []) new_collector)).0.disk_io
collect_system-disk_io_example =
    collect_system-disk_io as_zero new_collector (disk_at 10 1000) (quiet 12 ∷ []) (disk_at 14 5000)
      _ _ sda (record { read_bytes = 1000; write_bytes = 7 })
      (record { read_bytes = 5000; write_bytes = 7 }) 2 refl (tt, tt) (refl, tt) refl refl
      (omega arith) (omega arith) (Memᴰ.head refl) (Memᴰ.head refl)
      (omega arith, omega arith, omega arith) (omega arith, omega arith, omega arith)

collect_system-network_io_example :
    Memᴰ
      (record { interface = bytes "eth0"; bytes_sent_sec = 50; bytes_recv_sec = 50 })
      (collect_system as_zero
        (net_at 4 200)
        (sample_all as_zero (net_at 2 100 ∷ []) new_collector)).0.network_io
collect_system-network_io_example =
    collect_system-network_io as_zero new_collector (net_at 2 100) [] (net_at 4 200) _ _ (eth 100)
      (eth 200) 2 refl (tt, tt) tt refl refl (omega arith) (omega arith) (Memᴰ.head refl)
      (Memᴰ.head refl) refl (λ e. cc) (omega arith, omega arith, omega arith)
      (omega arith, omega arith, omega arith)
