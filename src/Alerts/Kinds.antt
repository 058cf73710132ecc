-- ===== src/Alerts/Kinds.antt =====
-- The kinds of the checks of internal/alerts/alerts.go, and when no two checks share one.
use monitoring.Base.{
  Float64, decimal, decimal-injective, All, All-append, Apart, All-map, All-every, All-imp,
  Apart-append, Text, bytes, ℕ, ◌≡◌, ◌≢◌, List, [], ◌∷◌, ◌++◌, map, arith,
}
use monitoring.Alerts.Engine.{
  DiskAlert, UrlAlert, AllMetrics, Engine, threshold_of, Check, disk_kind, url_kind, disk_check,
  url_check, checks,
}

abbrev pub kind : Check → Text
kind c = c.kind

cons-append-injective : (p s t : Text) → p ++ s ≡ p ++ t → s ≡ t
cons-append-injective [] s t e = e
cons-append-injective (c ∷ p) s t e = cons-append-injective p s t (cc)

pub url_kind-injective : (i j : ℕ) → url_kind i ≡ url_kind j → i ≡ j
url_kind-injective i j e =
    decimal-injective i j (cons-append-injective (bytes "url_down:") (decimal i) (decimal j) e)

pub disk_kind-injective : (s t : Text) → disk_kind s ≡ disk_kind t → s ≡ t
disk_kind-injective s t e = cons-append-injective (bytes "disk_pct:") s t e

-- The mount points and the ids that one run is given.
pub record HasKeys (m : AllMetrics) : Type 0 where
  pub mounts : Apart (λ (d : DiskAlert). d.mountpoint) m.disks
  pub ids : Apart (λ (u : UrlAlert). u.id) m.url_stats

disk_checks-Apart :
    (limit : Float64) (ds : List DiskAlert)
    → Apart (λ (d : DiskAlert). d.mountpoint) ds
    → Apart kind (map (disk_check limit) ds)
unfolding disk_check
disk_checks-Apart limit [] h = tt
disk_checks-Apart limit (d ∷ ds) h = (
  All-map _ (disk_check limit) ds
      (All-imp _ _ ds (λ x ne e. ne (disk_kind-injective d.mountpoint x.mountpoint e)) h.0),
  disk_checks-Apart limit ds h.1,
)

url_checks-Apart :
    (us : List UrlAlert) → Apart (λ (u : UrlAlert). u.id) us → Apart kind (map url_check us)
unfolding url_check
url_checks-Apart [] h = tt
url_checks-Apart (u ∷ us) h = (
  All-map _ url_check us (All-imp _ _ us (λ x ne e. ne (url_kind-injective u.id x.id e)) h.0),
  url_checks-Apart us h.1,
)

-- What the disks and the URLs are checked for, behind the gauges.
abbrev others : Engine → AllMetrics → List Check
others e m =
    map (disk_check (threshold_of e.thresholds (bytes "disk_pct"))) m.disks
    ++ map url_check m.url_stats

-- A kind that no disk and no URL can have.
apart_from_others :
    (k : Text) (e : Engine) (m : AllMetrics)
    → ((s : Text) → k ≢ disk_kind s)
    → ((i : ℕ) → k ≢ url_kind i)
    → All (λ c. k ≢ kind c) (others e m)
unfolding disk_check url_check
apart_from_others k e m nd nu =
    All-append _ (map (disk_check _) m.disks) (map url_check m.url_stats)
      (All-map _ _ m.disks (All-every _ m.disks (λ d. nd d.mountpoint)))
      (All-map _ _ m.url_stats (All-every _ m.url_stats (λ u. nu u.id)))

-- The three gauges come first; a disk's kind begins with `d` and a URL's with `u`.
pub checks-Apart : (e : Engine) (m : AllMetrics) → HasKeys m → Apart kind (checks e m)
unfolding checks disk_check url_check
checks-Apart e m keys =
    let gauge : (k : Text)
        → ((s : Text) → k ≢ disk_kind s)
        → ((i : ℕ) → k ≢ url_kind i)
        → All (λ c. k ≢ kind c) (others e m) =
      λ k nd nu. apart_from_others k e m nd nu in
    (
      (
        ground arith,
        (ground arith, gauge (bytes "cpu_pct") (λ s h. ground arith) (λ i h. ground arith)),
      ),
      (
        (ground arith, gauge (bytes "ram_pct") (λ s h. ground arith) (λ i h. ground arith)),
        (
          gauge (bytes "swap_pct") (λ s h. ground arith) (λ i h. ground arith),
          Apart-append kind (map (disk_check _) m.disks) (map url_check m.url_stats)
              (disk_checks-Apart _ m.disks keys.mounts) (url_checks-Apart m.url_stats keys.ids)
              (All-map _ _ m.disks (
                All-every _ m.disks
                  (λ d. All-map _ _ m.url_stats (All-every _ m.url_stats (λ u h. ground arith))))),
        ),
      ),
    )
