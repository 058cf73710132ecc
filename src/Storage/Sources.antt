-- ===== src/Storage/Sources.antt =====
-- `FailedSSHByIP` of internal/storage/sqlite.go: where the failed logins come from.
use monitoring.Base.{
  leb, place_desc, sort_desc, Falls, sort_desc-Falls, All-sort_desc, Apart-sort_desc, length, take,
  keep, count, All, Apart, All-imp, All-imp₂, All-take, Apart-take, Text, bytes, text_discrete, ℕ,
  zero, suc, ◌≤◌, ◌<◌, ◌≡◌, refl, subst, ◌∙◌, ◌≢◌, ◌⊎◌, inl, inr, ite, true, false, ◌&&◌, none,
  List, [], ◌∷◌, arith,
}
use monitoring.Storage.Schema.{SshEvent, IpCount}
use monitoring.Storage.Session.{ok, Env, World, exec}
use monitoring.Storage.Events.{is_failed_since, group_by_ip, by_count, failed_ssh_by_ip}
use monitoring.Storage.Groups.{
  is_from, total_of, ip_of, total_of-group_by_ip, Apart-group_by_ip, group_by_ip-positive,
}

-- How many logins from an address have failed since a time.
abbrev pub failures : ℕ → Text → List SshEvent → ℕ
failures since ip rows =
    count
      (λ (e : SshEvent).
        (ite (text_discrete e.event_type (bytes "failed")) true false)
        && (leb since e.occurred_at && is_from ip e))
      rows

count-failed :
    (since : ℕ) (ip : Text) (rows : List SshEvent)
    → count (is_from ip) (keep (is_failed_since since) rows) ≡ failures since ip rows
count-failed since ip [] = refl
count-failed since ip (e ∷ rows) = ground (arith, count-failed since ip rows)

total_of-place_desc :
    (ip : Text) (c : IpCount) (xs : List IpCount)
    → total_of ip (place_desc by_count c xs) ≡ total_of ip (c ∷ xs)
unfolding total_of place_desc
total_of-place_desc ip c [] = refl
total_of-place_desc ip c (d ∷ xs) = ground (arith, total_of-place_desc ip c xs)

total_of-sort_desc :
    (ip : Text) (xs : List IpCount) → total_of ip (sort_desc by_count xs) ≡ total_of ip xs
unfolding total_of sort_desc
total_of-sort_desc ip [] = refl
total_of-sort_desc ip (c ∷ xs) =
    total_of-place_desc ip c (sort_desc by_count xs) ∙ ground (arith, total_of-sort_desc ip xs)

-- An address that no entry has.
total_of-absent : (ip : Text) (xs : List IpCount) → All (λ c. ip ≢ ip_of c) xs → total_of ip xs ≡ 0
unfolding total_of
total_of-absent ip [] h = refl
total_of-absent ip (c ∷ xs) h = ground (arith, h.0, total_of-absent ip xs h.1)

total_of-le :
    (ip : Text) (n : ℕ) (xs : List IpCount)
    → Apart ip_of xs
    → All (λ c. by_count c ≤ n) xs
    → total_of ip xs ≤ n
unfolding total_of
total_of-le ip n [] a h = omega arith
total_of-le ip n (c ∷ xs) a h = elim (text_discrete c.ip ip) [
  | yes e ↦ ground (arith, h.0, total_of-absent c.ip xs a.0)
  | no ne ↦ ground (arith, total_of-le ip n xs a.1 h.1)
]

-- Each entry has the whole count of its address.
counts_whole : (xs : List IpCount) → Apart ip_of xs → All (λ c. c.count ≡ total_of c.ip xs) xs
unfolding total_of
counts_whole [] a = tt
counts_whole (c ∷ xs) a =
    (ground (arith, total_of-absent c.ip xs a.0), All-join c xs xs a.0 (counts_whole xs a.1))
  where
    All-join :
        (c : IpCount) (xs ys : List IpCount)
        → All (λ d. c.ip ≢ ip_of d) ys
        → All (λ d. d.count ≡ total_of d.ip xs) ys
        → All (λ d. d.count ≡ total_of d.ip (c ∷ xs)) ys
    All-join c xs [] h k = tt
    All-join c xs (d ∷ ys) h k = (ground (arith, h.0, k.0), All-join c xs ys h.1 k.1)

Falls-take : (n : ℕ) (xs : List IpCount) → Falls by_count xs → Falls by_count (take n xs)
Falls-take zero xs h = tt
Falls-take (suc n) [] h = tt
Falls-take (suc n) (c ∷ xs) h =
    (All-take (λ d. by_count d ≤ by_count c) n xs h.0, Falls-take n xs h.1)

length-take_le : (n : ℕ) (xs : List IpCount) → length (take n xs) ≤ n
length-take_le zero xs = omega arith
length-take_le (suc n) [] = omega arith
length-take_le (suc n) (c ∷ xs) = omega (arith, length-take_le n xs)

-- An address is among the first ones, with its whole count, or these are full and none has less.
abbrev pub IsListed : ℕ → ℕ → Text → List IpCount → Type 0
IsListed limit total ip out =
    (total_of ip out ≡ total) ⊎ ((length out ≡ limit) × All (λ c. total ≤ c.count) out)

listed :
    (n : ℕ) (ip : Text) (xs : List IpCount)
    → Falls by_count xs
    → Apart ip_of xs
    → IsListed n (total_of ip xs) ip (take n xs)
unfolding total_of
listed zero ip xs f a = inr (refl, tt)
listed (suc n) ip [] f a = inl refl
listed (suc n) ip (c ∷ xs) f a = elim (text_discrete c.ip ip) [
  | yes e ↦ inl (
      ground (
        arith,
        total_of-absent c.ip xs a.0,
        total_of-absent c.ip (take n xs) (All-take (λ d. c.ip ≢ ip_of d) n xs a.0),
      ))
  | no ne ↦ elim (listed n ip xs f.1 a.1) [
    | inl e ↦ inl (ground arith)
    | inr (full, h) ↦ inr (
      omega arith,
      (
        ground (arith, total_of-le ip c.count xs a.1 f.0),
        All-imp _ _ (take n xs) (λ d k. ground arith) h,
      ),
    )
  ]
]

module _ (env : Env) (since : ℕ) (w : World) where
  -- If its statement succeeds, then `FailedSSHByIP` answers, the most frequent first, with at
  -- most 20 entries, each for another address, which has the number of logins that failed from it
  -- since the given time, one at least. An address that is not among them had no failure since
  -- then, or there are 20 entries and none has less than it.
  pub failed_ssh_by_ip-sources :
      env.faults w.calls ≡ none
      → let rows = w.tables.ssh_events in
        (out : List IpCount) × (failed_ssh_by_ip env since w
          ≡ (ok out, record w { calls = suc w.calls }))
        × Falls by_count out
        × (length out ≤ 20)
        × Apart ip_of out
        × All (λ c. (0 < c.count) × (c.count ≡ failures since c.ip rows)) out
        × ((ip : Text) → IsListed 20 (failures since ip rows) ip out)
  unfolding failed_ssh_by_ip
  failed_ssh_by_ip-sources fine =
      let rows = w.tables.ssh_events in
      let groups = group_by_ip (keep (is_failed_since since) rows) in
      let all = sort_desc by_count groups in
      let apart : Apart ip_of all =
        Apart-sort_desc by_count ip_of groups
          (Apart-group_by_ip (keep (is_failed_since since) rows)) in
      let whole : ((ip : Text) → total_of ip all ≡ failures since ip rows) = λ ip.
        total_of-sort_desc ip groups
        ∙ total_of-group_by_ip ip (keep (is_failed_since since) rows)
        ∙ count-failed since ip rows in
      let counted =
        All-imp₂ _ _ (λ (c : IpCount). (0 < c.count) × (c.count ≡ failures since c.ip rows)) all
          (λ c positive e. (positive, e ∙ whole c.ip))
          (All-sort_desc by_count (λ c. 0 < c.count) groups
            (group_by_ip-positive (keep (is_failed_since since) rows)))
          (counts_whole all apart) in
      (
        take 20 all,
        rw (fine, exec) refl,
        Falls-take 20 all (sort_desc-Falls by_count groups),
        length-take_le 20 all,
        Apart-take ip_of 20 all apart,
        All-take _ 20 all counted,
        λ ip.
            subst (λ n. IsListed 20 n ip (take 20 all)) (whole ip)
              (listed 20 ip all (sort_desc-Falls by_count groups) apart),
      )
