-- ===== src/Metrics/Readings.antt =====
-- internal/metrics/system.go: the snapshot of the system, and what gopsutil answers to the collector, none
-- where it fails. A Go map is listed in the order in which `range` yields it.
use monitoring.Base.{Float64, Text, ℕ, Option, List}

pub record DiskStat : Type 0 where
  pub mountpoint : Text
  pub total : ℕ
  pub used : ℕ
  pub percent : Float64
  pub fs_type : Text

pub record DiskIoStat : Type 0 where
  pub device : Text
  pub read_bytes_sec : ℕ
  pub write_bytes_sec : ℕ

pub record NetIoStat : Type 0 where
  pub interface : Text
  pub bytes_sent_sec : ℕ
  pub bytes_recv_sec : ℕ

pub record SystemSnapshot : Type 0 where
  pub collected_at : ℕ
  pub cpu_percent : Float64
  pub cpu_per_core : List Float64
  pub load_avg1 : Float64
  pub load_avg5 : Float64
  pub load_avg15 : Float64
  pub mem_total : ℕ
  pub mem_used : ℕ
  pub mem_percent : Float64
  pub swap_total : ℕ
  pub swap_used : ℕ
  pub swap_percent : Float64
  pub disks : List DiskStat
  pub disk_io : List DiskIoStat
  pub network_io : List NetIoStat
  pub uptime_seconds : ℕ

-- The structs of gopsutil, as far as their fields are read.
pub record LoadAvg : Type 0 where
  pub load1 : Float64
  pub load5 : Float64
  pub load15 : Float64

pub record Memory : Type 0 where
  pub total : ℕ
  pub used : ℕ
  pub used_percent : Float64

pub record Partition : Type 0 where
  pub mountpoint : Text
  pub fstype : Text

pub record DiskCounters : Type 0 where
  pub read_bytes : ℕ
  pub write_bytes : ℕ

pub record NetCounters : Type 0 where
  pub name : Text
  pub bytes_sent : ℕ
  pub bytes_recv : ℕ

pub record Readings : Type 0 where
  pub now : ℕ
  pub cpu : Option (List Float64)
  pub per_core : Option (List Float64)
  pub load : Option LoadAvg
  pub memory : Option Memory
  pub swap : Option Memory
  pub partitions : Option (List Partition)
  pub usage : Text → Option Memory
  pub disk_counters : Option (List (Text × DiskCounters))
  pub net_counters : Option (List NetCounters)
  pub uptime : Option ℕ
