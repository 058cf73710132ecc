-- ===== src/Metrics/Interfaces.antt =====
-- `Collect` of internal/metrics/system.go over several samples: the rates of the interfaces. `netMap` is
-- filled in the order of the list, so that an interface listed twice counts as its last entry.
use mathlib.Core.List.{Memᴰ}
use monitoring.Base.{
  is_some, if_ind, one_units, second, All, Apart, lookup, insert, lookup-insert, Text, bytes,
  text_discrete, ℕ, ◌+◌, ◌-◌, ◌*◌, ◌/◌, ◌^◌, ◌<◌, ◌≡◌, refl, sym, ap, subst, ◌∙◌, ◌≢◌, if_pos,
  if_neg, Bool, true, false, Option, none, some, List, [], ◌∷◌, arith,
}
use monitoring.Metrics.Readings.{NetIoStat, NetCounters, Readings}
use monitoring.Metrics.System.{
  Collector, elapsed, is_loopback, net_rate, add_net_rate, net_rates, net_map, list_or_nil,
  next_net_io, collect_system,
}
use monitoring.Metrics.Sampling.{
  Grew, per_second-Grew, sample_all, last_time, sample_all-prev_time, sample_all-prev_net_io,
  elapsed-from,
}

net_map-without :
    (name : Text) (counters : List NetCounters) (m : List (Text × NetCounters))
    → All (λ (q : NetCounters). name ≢ q.name) counters
    → lookup text_discrete name (net_map counters m) ≡ lookup text_discrete name m
unfolding net_map
net_map-without name [] m h = refl
net_map-without name (q ∷ rest) m h =
    net_map-without name rest (insert text_discrete q.name q m) h.1
    ∙ lookup-insert text_discrete q.name name q m
    ∙ if_neg (text_discrete q.name name) (λ e. h.0 (sym e)) _ _

net_map-mem :
    (cur : NetCounters) (counters : List NetCounters) (m : List (Text × NetCounters))
    → Apart (λ (q : NetCounters). q.name) counters
    → Memᴰ cur counters
    → lookup text_discrete cur.name (net_map counters m) ≡ some cur
unfolding net_map
net_map-mem cur [] m h k = elim k [ ]
net_map-mem cur (q ∷ rest) m h (Memᴰ.head x) =
    net_map-without cur.name rest (insert text_discrete q.name q m) (rw x h.0)
    ∙ lookup-insert text_discrete q.name cur.name q m
    ∙ if_pos (text_discrete q.name cur.name) (ap (λ (y : NetCounters). y.name) (sym x)) _ _
    ∙ ap some (sym x)
net_map-mem cur (q ∷ rest) m h (Memᴰ.tail k) =
    net_map-mem cur rest (insert text_discrete q.name q m) h.1 k

module _ (wild : ℕ → ℕ) where
  add_net_rate-mem :
      (time : ℕ) (cur : NetCounters) (o : Option NetCounters) (timed : Bool) {x : NetIoStat}
      {stats : List NetIoStat}
      → Memᴰ x stats
      → Memᴰ x (add_net_rate wild time cur o timed stats)
  add_net_rate-mem time cur none timed m = m
  add_net_rate-mem time cur (some prev) true {x} {stats} m =
      if_ind (Memᴰ x) (is_loopback cur.name) stats (net_rate wild time cur prev ∷ stats) (λ e. m)
        (λ e. Memᴰ.tail m)
  add_net_rate-mem time cur (some prev) false m = m

  net_rates-mem :
      (time : ℕ) (c : Collector) (counters : List NetCounters) (prev cur : NetCounters) (t : ℕ)
      → cur.name ≢ bytes "lo"
      → c.prev_time ≡ some t
      → lookup text_discrete cur.name c.prev_net_io ≡ some prev
      → Memᴰ cur counters
      → Memᴰ (net_rate wild time cur prev) (net_rates wild time c counters)
  unfolding net_rates
  net_rates-mem time c [] prev cur t ne e f m = elim m [ ]
  net_rates-mem time c (q ∷ rest) prev cur t ne e f (Memᴰ.head x) =
      rw⁻¹ x (rw (f, e, if_neg (text_discrete cur.name (bytes "lo")) ne) (Memᴰ.head refl))
  net_rates-mem time c (q ∷ rest) prev cur t ne e f (Memᴰ.tail m) =
      add_net_rate-mem time q (lookup text_discrete q.name c.prev_net_io) (is_some c.prev_time)
        (net_rates-mem time c rest prev cur t ne e f m)

  net_rate-Grew :
      (prev cur : NetCounters) (s : ℕ)
      → Grew prev.bytes_sent cur.bytes_sent
      → Grew prev.bytes_recv cur.bytes_recv
      → 0 < s
      → s < 2 ^ 53
      → net_rate wild (s * one_units) cur prev ≡ record {
        interface = cur.name;
        bytes_sent_sec = (cur.bytes_sent - prev.bytes_sent) / s;
        bytes_recv_sec = (cur.bytes_recv - prev.bytes_recv) / s;
      }
  net_rate-Grew prev cur s gs gr h l =
      rw
        (
          per_second-Grew wild cur.bytes_sent prev.bytes_sent s gs h l,
          per_second-Grew wild cur.bytes_recv prev.bytes_recv s gr h l,
        )
        refl

  collect_system-net_rates :
      (r : Readings) (c : Collector) (counters : List NetCounters) (time : ℕ)
      → r.net_counters ≡ some counters
      → elapsed c.prev_time r.now ≡ time
      → net_rates wild time c counters ≡ (collect_system wild r c).0.network_io
  unfolding collect_system
  collect_system-net_rates r c counters time e f =
      rw⁻¹ f (ap (λ o. net_rates wild (elapsed c.prev_time r.now) c (list_or_nil o)) (sym e))

  -- Let the counters of the interfaces, no two of one name, be read in one sample, not in the
  -- samples after it, of which there may be none, and again in a sample that is `s` whole seconds
  -- after the last one of them. Then an interface of both samples other than lo whose two
  -- counters grew, each by less than 2 to the 53, is reported with what they grew, divided by `s`
  -- without remainder.
  pub collect_system-network_io :
      (c : Collector) (first : Readings) (failed : List Readings) (r : Readings)
      (before after : List NetCounters) (prev cur : NetCounters) (s : ℕ)
      → first.net_counters ≡ some before
      → Apart (λ (q : NetCounters). q.name) before
      → All (λ (q : Readings). q.net_counters ≡ none) failed
      → r.net_counters ≡ some after
      → r.now ≡ last_time first failed + s * second
      → 0 < s
      → s * second < 2 ^ 63
      → Memᴰ prev before
      → Memᴰ cur after
      → prev.name ≡ cur.name
      → cur.name ≢ bytes "lo"
      → Grew prev.bytes_sent cur.bytes_sent
      → Grew prev.bytes_recv cur.bytes_recv
      → Memᴰ
          (record {
            interface = cur.name;
            bytes_sent_sec = (cur.bytes_sent - prev.bytes_sent) / s;
            bytes_recv_sec = (cur.bytes_recv - prev.bytes_recv) / s;
          })
          (collect_system wild r (sample_all wild (first ∷ failed) c)).0.network_io
  unfolding collect_system sample_all
  collect_system-network_io c first failed r before after prev cur s b apart fails a n h l mp mc
        same ne gs gr =
      let c' = sample_all wild (first ∷ failed) c in
      let time = sample_all-prev_time wild first failed c in
      let last : c'.prev_net_io ≡ net_map before [] =
        sample_all-prev_net_io wild failed (collect_system wild first c).1 fails
        ∙ ap (λ o. next_net_io o c.prev_net_io) b in
      let held : lookup text_discrete cur.name c'.prev_net_io ≡ some prev =
        rw last (rw⁻¹ same (net_map-mem prev before [] apart mp)) in
      subst (Memᴰ _)
        (collect_system-net_rates r c' after (s * one_units) a
          (elapsed-from wild c'.prev_time r.now (last_time first failed) s time n h l))
        (subst (λ x. Memᴰ x (net_rates wild (s * one_units) c' after))
          (net_rate-Grew prev cur s gs gr h (omega arith))
          (net_rates-mem (s * one_units) c' after prev cur _ ne time held mc))
