-- ===== src/Metrics/System.antt =====
-- internal/metrics/system.go: the collector. Times are in nanoseconds.
use Prim.Native.Nat.{min}
use monitoring.Base.{
  ◌==◌, if◌then◌else◌, is_some, Float64, one_units, of_units, float_units, div_units, to_uint64,
  seconds_units, lookup, insert, Text, bytes, text_discrete, ℕ, ◌+◌, ◌-◌, ◌%◌, ◌^◌, ite, Bool, true,
  false, ◌&&◌, ◌||◌, Option, none, some, List, [], ◌∷◌,
}
use monitoring.Metrics.Readings.{
  DiskStat, DiskIoStat, NetIoStat, SystemSnapshot, LoadAvg, Memory, Partition, DiskCounters,
  NetCounters, Readings,
}

-- `Collector`: a `prevTime` that is zero is none.
pub record Collector : Type 0 where
  pub prev_disk_io : List (Text × DiskCounters)
  pub prev_net_io : List (Text × NetCounters)
  pub prev_time : Option ℕ

unfoldable pub new_collector : Collector
new_collector = record { prev_disk_io = []; prev_net_io = []; prev_time = none }

abbrev pub pseudo_fs : List Text
pseudo_fs =
    bytes "tmpfs"
    ∷ bytes "devtmpfs"
    ∷ bytes "squashfs"
    ∷ bytes "overlay"
    ∷ bytes "proc"
    ∷ bytes "sysfs"
    ∷ bytes "devpts"
    ∷ bytes "cgroup"
    ∷ bytes "cgroup2"
    ∷ bytes "mqueue"
    ∷ bytes "hugetlbfs"
    ∷ bytes "debugfs"
    ∷ bytes "autofs"
    ∷ bytes "securityfs"
    ∷ bytes "fusectl"
    ∷ []

unfoldable pub is_one_of : Text → List Text → Bool
is_one_of s [] = false
is_one_of s (t ∷ ts) = ite (text_discrete s t) true (is_one_of s ts)

-- `strings.HasPrefix(s, prefix)`
unfoldable pub has_prefix : Text → Text → Bool
has_prefix s [] = true
has_prefix [] (p ∷ prefix) = false
has_prefix (c ∷ s) (p ∷ prefix) = (c == p) && has_prefix s prefix

unfoldable pub is_skipped : Partition → Bool
unfolding is_one_of has_prefix
is_skipped p =
    is_one_of p.fstype pseudo_fs
    || has_prefix p.mountpoint (bytes "/sys")
    || has_prefix p.mountpoint (bytes "/proc")

abbrev pub disk_stat : Partition → Memory → DiskStat
disk_stat p u = record {
  mountpoint = p.mountpoint;
  total = u.total;
  used = u.used;
  percent = u.used_percent;
  fs_type = p.fstype;
}

abbrev pub add_disk : Partition → Option Memory → List DiskStat → List DiskStat
add_disk p none disks = disks
add_disk p (some u) disks = disk_stat p u ∷ disks

-- What the loop over the partitions appends to `snap.Disks`.
unfoldable pub disk_stats : (Text → Option Memory) → List Partition → List DiskStat
unfolding is_skipped
disk_stats usage [] = []
disk_stats usage (p ∷ ps) =
    let rest = disk_stats usage ps in
    if is_skipped p then rest else add_disk p (usage p.mountpoint) rest

-- `cur - prev` for numbers of type uint64
unfoldable pub sub_uint64 : ℕ → ℕ → ℕ
sub_uint64 cur prev = (cur + 2 ^ 64 - prev) % 2 ^ 64

-- `now.Sub(prevTime)`: the longest duration where the other time is zero, or too long ago.
abbrev pub since_prev : Option ℕ → ℕ → ℕ
since_prev none now = 2 ^ 63 - 1
since_prev (some prev) now = min (now - prev) (2 ^ 63 - 1)

-- `elapsed`: the duration in seconds, and one second where it is not positive. The difference stops
-- at 0 where the time went back.
unfoldable pub elapsed : Option ℕ → ℕ → ℕ
elapsed prev now =
    let seconds = seconds_units (since_prev prev now) in if seconds == 0 then one_units else seconds

-- `uint64(float64(cur-prev) / elapsed)`
unfoldable pub per_second : (ℕ → ℕ) → ℕ → ℕ → ℕ → ℕ
unfolding sub_uint64
per_second wild time cur prev = to_uint64 wild (div_units (float_units (sub_uint64 cur prev)) time)

abbrev pub is_loopback : Text → Bool
is_loopback name = ite (text_discrete name (bytes "lo")) true false

module _ (wild : ℕ → ℕ) (time : ℕ) where
  abbrev pub disk_rate : Text → DiskCounters → DiskCounters → DiskIoStat
  disk_rate dev cur prev = record {
    device = dev;
    read_bytes_sec = per_second wild time cur.read_bytes prev.read_bytes;
    write_bytes_sec = per_second wild time cur.write_bytes prev.write_bytes;
  }

  abbrev pub add_disk_rate :
      Text → DiskCounters → Option DiskCounters → Bool → List DiskIoStat → List DiskIoStat
  add_disk_rate dev cur none timed stats = stats
  add_disk_rate dev cur (some prev) timed stats =
      if timed then disk_rate dev cur prev ∷ stats else stats

  -- The loop over the disks' counters.
  unfoldable pub disk_rates : Collector → List (Text × DiskCounters) → List DiskIoStat
  unfolding per_second
  disk_rates c [] = []
  disk_rates c ((dev, cur) ∷ rest) =
      add_disk_rate dev cur (lookup text_discrete dev c.prev_disk_io) (is_some c.prev_time)
        (disk_rates c rest)

  abbrev pub net_rate : NetCounters → NetCounters → NetIoStat
  net_rate cur prev = record {
    interface = cur.name;
    bytes_sent_sec = per_second wild time cur.bytes_sent prev.bytes_sent;
    bytes_recv_sec = per_second wild time cur.bytes_recv prev.bytes_recv;
  }

  abbrev pub add_net_rate :
      NetCounters → Option NetCounters → Bool → List NetIoStat → List NetIoStat
  add_net_rate cur none timed stats = stats
  add_net_rate cur (some prev) timed stats =
      if timed then (if is_loopback cur.name then stats else net_rate cur prev ∷ stats) else stats

  -- The loop over the interfaces' counters, as far as it appends to `snap.NetworkIO`.
  unfoldable pub net_rates : Collector → List NetCounters → List NetIoStat
  unfolding per_second
  net_rates c [] = []
  net_rates c (cur ∷ rest) =
      add_net_rate cur (lookup text_discrete cur.name c.prev_net_io) (is_some c.prev_time)
        (net_rates c rest)

-- The same loop, as far as it fills `netMap`.
unfoldable pub net_map : List NetCounters → List (Text × NetCounters) → List (Text × NetCounters)
net_map [] m = m
net_map (cur ∷ rest) m = net_map rest (insert text_discrete cur.name cur m)

abbrev zero_float : Float64
zero_float = of_units 0

-- `len(cpuPct) > 0`
abbrev pub first_percent : Option (List Float64) → Float64
first_percent none = zero_float
first_percent (some []) = zero_float
first_percent (some (p ∷ rest)) = p

abbrev pub list_or_nil : {A : Type 0} → Option (List A) → List A
list_or_nil none = []
list_or_nil (some xs) = xs

abbrev pub load_or_zero : Option LoadAvg → LoadAvg
load_or_zero none = record { load1 = zero_float; load5 = zero_float; load15 = zero_float }
load_or_zero (some avg) = avg

abbrev pub memory_or_zero : Option Memory → Memory
memory_or_zero none = record { total = 0; used = 0; used_percent = zero_float }
memory_or_zero (some m) = m

abbrev pub number_or_zero : Option ℕ → ℕ
number_or_zero none = 0
number_or_zero (some n) = n

abbrev pub next_disk_io :
    Option (List (Text × DiskCounters)) → List (Text × DiskCounters) → List (Text × DiskCounters)
next_disk_io none prev = prev
next_disk_io (some counters) prev = counters

abbrev pub next_net_io :
    Option (List NetCounters) → List (Text × NetCounters) → List (Text × NetCounters)
next_net_io none prev = prev
next_net_io (some counters) prev = net_map counters []

unfoldable pub collect_system : (ℕ → ℕ) → Readings → Collector → SystemSnapshot × Collector
unfolding disk_stats elapsed disk_rates net_rates net_map
collect_system wild r c =
    let time = elapsed c.prev_time r.now in
    (
      record {
        collected_at = r.now;
        cpu_percent = first_percent r.cpu;
        cpu_per_core = list_or_nil r.per_core;
        load_avg1 = (load_or_zero r.load).load1;
        load_avg5 = (load_or_zero r.load).load5;
        load_avg15 = (load_or_zero r.load).load15;
        mem_total = (memory_or_zero r.memory).total;
        mem_used = (memory_or_zero r.memory).used;
        mem_percent = (memory_or_zero r.memory).used_percent;
        swap_total = (memory_or_zero r.swap).total;
        swap_used = (memory_or_zero r.swap).used;
        swap_percent = (memory_or_zero r.swap).used_percent;
        disks = disk_stats r.usage (list_or_nil r.partitions);
        disk_io = disk_rates wild time c (list_or_nil r.disk_counters);
        network_io = net_rates wild time c (list_or_nil r.net_counters);
        uptime_seconds = number_or_zero r.uptime;
      },
      record {
        prev_disk_io = next_disk_io r.disk_counters c.prev_disk_io;
        prev_net_io = next_net_io r.net_counters c.prev_net_io;
        prev_time = some r.now;
      },
    )
