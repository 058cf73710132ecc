-- ===== src/Metrics/App.antt =====
-- internal/metrics/app.go: what the program reports about itself. What the runtime and gopsutil answer is
-- an argument, none where gopsutil fails; durations are in nanoseconds.
use monitoring.Base.{
  ltb, if◌then◌else◌, Float64, one_units, of_units, float_units, div_units, seconds_units, ℤ, pos,
  negsuc, ℕ, ◌-◌, ◌/◌, ◌%◌, ◌^◌, Option, none, some,
}

pub record AppSnapshot : Type 0 where
  pub collected_at : ℕ
  pub goroutines : ℕ
  pub heap_alloc_bytes : ℕ
  pub heap_sys_bytes : ℕ
  pub gc_pause_total_ms : Float64
  pub num_gc : ℕ
  pub process_cpu_percent : Float64
  pub process_mem_bytes : ℕ
  pub open_file_count : ℤ
  pub uptime_seconds : ℕ

-- What the process itself answers.
pub record ProcessReadings : Type 0 where
  pub cpu_percent : Option Float64
  pub rss : Option ℕ
  pub open_files : Option ℕ

pub record AppReadings : Type 0 where
  pub now : ℕ
  pub num_goroutine : ℕ
  pub since_start : ℕ
  pub heap_alloc : ℕ
  pub heap_sys : ℕ
  pub pause_total_ns : ℕ
  pub num_gc : ℕ
  pub process : Option ProcessReadings

-- `int32(n)` for a length
abbrev pub to_int32 : ℕ → ℤ
to_int32 n = let low = n % 2 ^ 32 in if ltb low (2 ^ 31) then pos low else negsuc (2 ^ 32 - 1 - low)

abbrev no_process : ProcessReadings
no_process = record { cpu_percent = none; rss = none; open_files = none }

abbrev process_or_none : Option ProcessReadings → ProcessReadings
process_or_none none = no_process
process_or_none (some p) = p

abbrev float_or_zero : Option Float64 → Float64
float_or_zero none = of_units 0
float_or_zero (some x) = x

abbrev rss_or_zero : Option ℕ → ℕ
rss_or_zero none = 0
rss_or_zero (some n) = n

abbrev files_or_zero : Option ℕ → ℤ
files_or_zero none = pos 0
files_or_zero (some n) = to_int32 n

-- `float64(ms.PauseTotalNs) / 1e6`
unfoldable pub pause_ms : ℕ → Float64
pause_ms ns = of_units (div_units (float_units ns) (float_units 1_000_000))

unfoldable pub collect_app : AppReadings → AppSnapshot
unfolding pause_ms
collect_app r =
    let p = process_or_none r.process in
    record {
      collected_at = r.now;
      goroutines = r.num_goroutine;
      heap_alloc_bytes = r.heap_alloc;
      heap_sys_bytes = r.heap_sys;
      gc_pause_total_ms = pause_ms r.pause_total_ns;
      num_gc = r.num_gc;
      process_cpu_percent = float_or_zero p.cpu_percent;
      process_mem_bytes = rss_or_zero p.rss;
      open_file_count = files_or_zero p.open_files;
      uptime_seconds = seconds_units r.since_start / one_units;
    }
