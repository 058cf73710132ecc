-- ===== src/Server/Ticks.antt =====
-- The fast tick of `runCollector` in cmd/server/main.go, through the checker and the alert engine: which
-- alerts are active after it.
use mathlib.Core.List.{Memᴰ}
use mathlib.Core.List.Memᴰ
use monitoring.Base.{
  if_ind, All, Apart, All-map, HasApartKeys, lookup-mem, Text, ℕ, ◌≡◌, refl, sym, ◌∙◌, ◌≢◌, Bool,
  false, not, Option, none, some, List, [], ◌∷◌, map, ℕ_discrete,
}
use monitoring.Storage.{Env, IsReliable}
use monitoring.Alerts.Engine.{DiskAlert, UrlAlert, url_kind}
use monitoring.Alerts.Rounds.{is_active}
use monitoring.Alerts.Kinds.{HasKeys}
use monitoring.Alerts.Levels.{evaluate_url}
use monitoring.Metrics
use monitoring.Metrics.System.{is_skipped, add_disk, disk_stats, list_or_nil, collect_system}
use monitoring.Metrics.App.{collect_app}
use monitoring.Tunnel
use monitoring.Server.Loops.{Server, Payload, FastReadings, after_network, fast_tick}
use monitoring.Server.Soundness.{HasAllPorts, collect_network-runs}
use monitoring.Metrics.Readings.{DiskStat, SystemSnapshot, Memory, Partition, Readings}
use monitoring.UrlCheck.Checker.{CheckResult, Summary, Checker, all_summaries}
use monitoring.UrlCheck.Running.{IsTidy}
use monitoring.Server.Collector.{counts_as_up, url_alert, disk_alert, metrics_of, evaluate_alerts}

abbrev Entry : Type 0
Entry = ℕ × Summary

abbrev IsKeyed : Entry → Type 0
IsKeyed x = x.1.check.id ≡ x.0

All-IsKeyed :
    (c : Checker) (m : List Entry)
    → IsTidy c
    → ((x : Entry) → Memᴰ x m → Memᴰ x c.summaries)
    → All IsKeyed m
All-IsKeyed c [] t sub = tt
All-IsKeyed c ((i, s) ∷ m) t sub = (
  (t.bounded i s (lookup-mem ℕ_discrete i s c.summaries t.keys (sub (i, s) (Memᴰ.head refl)))).0,
  All-IsKeyed c m t (λ x held. sub x (Memᴰ.tail held)),
)

ids-Apart :
    (m : List Entry)
    → All IsKeyed m
    → HasApartKeys m
    → Apart (λ (u : UrlAlert). u.id) (map url_alert (map (λ (x : Entry). x.1) m))
unfolding url_alert
ids-Apart [] k a = tt
ids-Apart (x ∷ m) k a = (ids-others m k.1 a.0, ids-Apart m k.1 a.1)
  where
    ids-others :
        (m : List Entry)
        → All IsKeyed m
        → All (λ (y : Entry). x.0 ≢ y.0) m
        → All
            (λ (u : UrlAlert). (url_alert x.1).id ≢ u.id)
            (map url_alert (map (λ (y : Entry). y.1) m))
    ids-others [] k a = tt
    ids-others (y ∷ m) k' a = ((λ e. a.0 (sym k.0 ∙ e ∙ k'.0)), ids-others m k'.1 a.1)

mounts-Apart :
    (ds : List DiskStat)
    → Apart (λ (d : DiskStat). d.mountpoint) ds
    → Apart (λ (d : DiskAlert). d.mountpoint) (map disk_alert ds)
mounts-Apart [] h = tt
mounts-Apart (d ∷ ds) h = (All-map _ disk_alert ds h.0, mounts-Apart ds h.1)

metrics_of-HasKeys :
    (sys : SystemSnapshot) (c : Checker)
    → Apart (λ (d : DiskStat). d.mountpoint) sys.disks
    → IsTidy c
    → HasKeys (metrics_of sys c)
unfolding metrics_of all_summaries
metrics_of-HasKeys sys c mounts t = record {
  mounts = mounts-Apart sys.disks mounts;
  ids = ids-Apart c.summaries (All-IsKeyed c c.summaries t (λ x held. held)) t.keys;
}

disk_stats-mounts :
    (usage : Text → Option Memory) (mount : Text) (ps : List Partition)
    → All (λ (p : Partition). mount ≢ p.mountpoint) ps
    → All (λ (d : DiskStat). mount ≢ d.mountpoint) (disk_stats usage ps)
unfolding disk_stats
disk_stats-mounts usage mount [] h = tt
disk_stats-mounts usage mount (p ∷ ps) h =
    let rest = disk_stats-mounts usage mount ps h.1 in
    if_ind (All (λ (d : DiskStat). mount ≢ d.mountpoint)) (is_skipped p) _ _ (λ e. rest)
      (λ e. added (usage p.mountpoint) _ rest)
  where
    added :
        (o : Option Memory) (ds : List DiskStat)
        → All (λ (d : DiskStat). mount ≢ d.mountpoint) ds
        → All (λ (d : DiskStat). mount ≢ d.mountpoint) (add_disk p o ds)
    added none ds rest = rest
    added (some u) ds rest = (h.0, rest)

-- What is listed of the disks has no mount point twice if the partitions have none.
disk_stats-Apart :
    (usage : Text → Option Memory) (ps : List Partition)
    → Apart (λ (p : Partition). p.mountpoint) ps
    → Apart (λ (d : DiskStat). d.mountpoint) (disk_stats usage ps)
unfolding disk_stats
disk_stats-Apart usage [] h = tt
disk_stats-Apart usage (p ∷ ps) h =
    let rest = disk_stats-Apart usage ps h.1 in
    if_ind (Apart (λ (d : DiskStat). d.mountpoint)) (is_skipped p) _ _ (λ e. rest)
      (λ e. added (usage p.mountpoint) _ (disk_stats-mounts usage p.mountpoint ps h.0) rest)
  where
    added :
        (o : Option Memory) (ds : List DiskStat)
        → All (λ (d : DiskStat). p.mountpoint ≢ d.mountpoint) ds
        → Apart (λ (d : DiskStat). d.mountpoint) ds
        → Apart (λ (d : DiskStat). d.mountpoint) (add_disk p o ds)
    added none ds first rest = rest
    added (some u) ds first rest = (first, rest)

sample-Apart :
    (wild : ℕ → ℕ) (r : Readings) (c : Metrics.System.Collector)
    → Apart (λ (p : Partition). p.mountpoint) (list_or_nil r.partitions)
    → Apart (λ (d : DiskStat). d.mountpoint) (collect_system wild r c).0.disks
unfolding collect_system
sample-Apart wild r c h = disk_stats-Apart r.usage (list_or_nil r.partitions) h

-- The last probe found the check down.
abbrev pub is_down : Option CheckResult → Bool
is_down none = false
is_down (some r) = not r.up

down-counts_as_up : (o : Option CheckResult) → not (counts_as_up o) ≡ is_down o
down-counts_as_up none = refl
down-counts_as_up (some r) = refl

module _ (env : Env) (encode : Payload → Option Text) (wild : ℕ → ℕ) where
  -- If all statements succeed, no two partitions share a mount point, the ports of the
  -- connections are of type uint32 and the checker is tidy, then a fast tick does not panic, and
  -- after it the alert of every check that has a summary is active just if its last probe found
  -- it down; a check that was not probed yet counts as up.
  pub fast_tick-urls :
      (r : FastReadings) (s : Server) (u : Summary)
      → IsReliable env
      → Apart (λ (p : Partition). p.mountpoint) (list_or_nil r.system.partitions)
      → HasAllPorts r.connections
      → IsTidy s.app.checker
      → Memᴰ u (all_summaries s.app.checker)
      → (s' : Server) × (fast_tick env encode wild r s ≡ some s')
        × (is_active (url_kind u.check.id) s'.app.engine.active ≡ is_down u.last_result)
  unfolding fast_tick evaluate_alerts url_alert
  fast_tick-urls r s u reliable mounts ports t held =
      let (net, e) = collect_network-runs r.connections ports in
      let sys = collect_system wild r.system s.collector in
      let tun = Tunnel.Detector.collect env r.processes r.version s.detector s.app.world in
      (
        after_network env encode s sys (collect_app r.app) tun net,
        rw (e, fast_tick) refl,
        evaluate_url env reliable s.app.engine (metrics_of sys.0 s.app.checker) tun.2 (url_alert u)
              (metrics_of-HasKeys sys.0 s.app.checker
                (sample-Apart wild r.system s.collector mounts) t)
              (Memᴰ.map url_alert held)
            ∙ down-counts_as_up u.last_result,
      )
