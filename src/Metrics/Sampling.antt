-- ===== src/Metrics/Sampling.antt =====
-- `Collect` of internal/metrics/system.go over several samples: the rates of disks and interfaces.
use Prim.Native.Nat.{min}
use mathlib.Core.List.{Memᴰ}
use native.Mathlib.Nat.{mul-pos}
use monitoring.Base.{
  is_some, one_units, second, one_units-gt, seconds_whole, to_uint64-div, All, lookup, HasApartKeys,
  lookup-mem, Text, text_discrete, ℕ, ◌+◌, ◌-◌, ◌*◌, ◌/◌, ◌^◌, ◌≤◌, ◌<◌, ◌≡◌, refl, sym, ap, subst,
  ◌∙◌, Bool, true, false, Option, none, some, List, [], ◌∷◌, arith,
}
use monitoring.Metrics.Readings.{DiskIoStat, DiskCounters, Readings}
use monitoring.Metrics.System.{
  Collector, sub_uint64, elapsed, per_second, disk_rate, add_disk_rate, disk_rates, list_or_nil,
  next_disk_io, next_net_io, collect_system,
}

sub_uint64-le : (cur prev : ℕ) → prev ≤ cur → cur < 2 ^ 64 → sub_uint64 cur prev ≡ cur - prev
unfolding sub_uint64
sub_uint64-le cur prev l h = omega arith

-- A counter of type uint64 that grew, by less than a float64 holds exactly.
abbrev pub Grew : ℕ → ℕ → Type 0
Grew prev cur = (prev ≤ cur) × (cur < 2 ^ 64) × (cur - prev < 2 ^ 53)

pub per_second-Grew :
    (wild : ℕ → ℕ) (cur prev s : ℕ)
    → Grew prev cur
    → 0 < s
    → s < 2 ^ 53
    → per_second wild (s * one_units) cur prev ≡ (cur - prev) / s
unfolding per_second
per_second-Grew wild cur prev s g h l =
    rw (sub_uint64-le cur prev g.0 g.1) (to_uint64-div wild (cur - prev) s g.2 h l)

elapsed-whole :
    (t s : ℕ) → 0 < s → s * second < 2 ^ 63 → elapsed (some t) (t + s * second) ≡ s * one_units
unfolding elapsed
elapsed-whole t s h l =
    let e : min (t + s * second - t) (2 ^ 63 - 1) ≡ s * second = omega arith in
    let positive : 0 < s * one_units = mul-pos h (omega (arith, one_units-gt)) in
    rw (e, seconds_whole s (omega arith)) (ground arith)

-- The samples of `rs`, one after the other.
unfoldable pub sample_all : (ℕ → ℕ) → List Readings → Collector → Collector
sample_all wild [] c = c
sample_all wild (r ∷ rs) c = sample_all wild rs (collect_system wild r c).1

-- When the last sample of `r ∷ rs` was taken.
abbrev pub last_time : Readings → List Readings → ℕ
last_time r [] = r.now
last_time r (q ∷ rs) = last_time q rs

module _ (wild : ℕ → ℕ) where
  pub sample_all-prev_time :
      (r : Readings) (rs : List Readings) (c : Collector)
      → (sample_all wild (r ∷ rs) c).prev_time ≡ some (last_time r rs)
  unfolding sample_all collect_system
  sample_all-prev_time r [] c = refl
  sample_all-prev_time r (q ∷ rs) c = sample_all-prev_time q rs (collect_system wild r c).1

  sample_all-prev_disk_io :
      (rs : List Readings) (c : Collector)
      → All (λ (r : Readings). r.disk_counters ≡ none) rs
      → (sample_all wild rs c).prev_disk_io ≡ c.prev_disk_io
  unfolding sample_all collect_system
  sample_all-prev_disk_io [] c h = refl
  sample_all-prev_disk_io (r ∷ rs) c h =
      sample_all-prev_disk_io rs (collect_system wild r c).1 h.1
      ∙ ap (λ o. next_disk_io o c.prev_disk_io) h.0

  pub sample_all-prev_net_io :
      (rs : List Readings) (c : Collector)
      → All (λ (r : Readings). r.net_counters ≡ none) rs
      → (sample_all wild rs c).prev_net_io ≡ c.prev_net_io
  unfolding sample_all collect_system
  sample_all-prev_net_io [] c h = refl
  sample_all-prev_net_io (r ∷ rs) c h =
      sample_all-prev_net_io rs (collect_system wild r c).1 h.1
      ∙ ap (λ o. next_net_io o c.prev_net_io) h.0

  add_disk_rate-mem :
      (time : ℕ) (dev : Text) (cur : DiskCounters) (o : Option DiskCounters) (timed : Bool)
      {x : DiskIoStat} {stats : List DiskIoStat}
      → Memᴰ x stats
      → Memᴰ x (add_disk_rate wild time dev cur o timed stats)
  add_disk_rate-mem time dev cur none timed m = m
  add_disk_rate-mem time dev cur (some prev) true m = Memᴰ.tail m
  add_disk_rate-mem time dev cur (some prev) false m = m

  disk_rates-mem :
      (time : ℕ) (c : Collector) (counters : List (Text × DiskCounters)) (dev : Text)
      (prev cur : DiskCounters) (t : ℕ)
      → c.prev_time ≡ some t
      → lookup text_discrete dev c.prev_disk_io ≡ some prev
      → Memᴰ (dev, cur) counters
      → Memᴰ (disk_rate wild time dev cur prev) (disk_rates wild time c counters)
  unfolding disk_rates
  disk_rates-mem time c [] dev prev cur t e f m = elim m [ ]
  disk_rates-mem time c ((d, q) ∷ rest) dev prev cur t e f (Memᴰ.head x) =
      rw⁻¹ (ap (λ y. y.0) x) (rw⁻¹ (ap (λ y. y.1) x) (rw (f, e) (Memᴰ.head refl)))
  disk_rates-mem time c ((d, q) ∷ rest) dev prev cur t e f (Memᴰ.tail m) =
      add_disk_rate-mem time d q (lookup text_discrete d c.prev_disk_io) (is_some c.prev_time)
        (disk_rates-mem time c rest dev prev cur t e f m)

  pub elapsed-from :
      (prev : Option ℕ) (now t s : ℕ)
      → prev ≡ some t
      → now ≡ t + s * second
      → 0 < s
      → s * second < 2 ^ 63
      → elapsed prev now ≡ s * one_units
  elapsed-from prev now t s e n h l = rw (e, n) (elapsed-whole t s h l)

  disk_rate-Grew :
      (dev : Text) (prev cur : DiskCounters) (s : ℕ)
      → Grew prev.read_bytes cur.read_bytes
      → Grew prev.write_bytes cur.write_bytes
      → 0 < s
      → s < 2 ^ 53
      → disk_rate wild (s * one_units) dev cur prev ≡ record {
        device = dev;
        read_bytes_sec = (cur.read_bytes - prev.read_bytes) / s;
        write_bytes_sec = (cur.write_bytes - prev.write_bytes) / s;
      }
  disk_rate-Grew dev prev cur s gr gw h l =
      rw
        (
          per_second-Grew wild cur.read_bytes prev.read_bytes s gr h l,
          per_second-Grew wild cur.write_bytes prev.write_bytes s gw h l,
        )
        refl

  collect_system-disk_rates :
      (r : Readings) (c : Collector) (counters : List (Text × DiskCounters)) (time : ℕ)
      → r.disk_counters ≡ some counters
      → elapsed c.prev_time r.now ≡ time
      → disk_rates wild time c counters ≡ (collect_system wild r c).0.disk_io
  unfolding collect_system
  collect_system-disk_rates r c counters time e f =
      rw⁻¹ f (ap (λ o. disk_rates wild (elapsed c.prev_time r.now) c (list_or_nil o)) (sym e))

  -- Let the counters of the disks be read in one sample, not in the samples after it, of which
  -- there may be none, and again in a sample that is `s` whole seconds after the last one of
  -- them. Then a disk of the first and the last sample whose two counters grew, each by less than
  -- 2 to the 53, is reported with what they grew, divided by `s` without remainder: if samples
  -- failed in between, the growth of the whole time is divided by the seconds since the last
  -- failure.
  pub collect_system-disk_io :
      (c : Collector) (first : Readings) (failed : List Readings) (r : Readings)
      (before after : List (Text × DiskCounters)) (dev : Text) (prev cur : DiskCounters) (s : ℕ)
      → first.disk_counters ≡ some before
      → HasApartKeys before
      → All (λ (q : Readings). q.disk_counters ≡ none) failed
      → r.disk_counters ≡ some after
      → r.now ≡ last_time first failed + s * second
      → 0 < s
      → s * second < 2 ^ 63
      → Memᴰ (dev, prev) before
      → Memᴰ (dev, cur) after
      → Grew prev.read_bytes cur.read_bytes
      → Grew prev.write_bytes cur.write_bytes
      → Memᴰ
          (record {
            device = dev;
            read_bytes_sec = (cur.read_bytes - prev.read_bytes) / s;
            write_bytes_sec = (cur.write_bytes - prev.write_bytes) / s;
          })
          (collect_system wild r (sample_all wild (first ∷ failed) c)).0.disk_io
  unfolding collect_system sample_all
  collect_system-disk_io c first failed r before after dev prev cur s b keys fails a n h l mp mc gr
        gw =
      let c' = sample_all wild (first ∷ failed) c in
      let time = sample_all-prev_time first failed c in
      let last : c'.prev_disk_io ≡ before =
        sample_all-prev_disk_io failed (collect_system wild first c).1 fails
        ∙ ap (λ o. next_disk_io o c.prev_disk_io) b in
      let held : lookup text_discrete dev c'.prev_disk_io ≡ some prev =
        rw last (lookup-mem text_discrete dev prev before keys mp) in
      subst (Memᴰ _)
        (collect_system-disk_rates r c' after (s * one_units) a
          (elapsed-from c'.prev_time r.now (last_time first failed) s time n h l))
        (subst (λ x. Memᴰ x (disk_rates wild (s * one_units) c' after))
          (disk_rate-Grew dev prev cur s gr gw h (omega arith))
          (disk_rates-mem (s * one_units) c' after dev prev cur _ time held mc))
