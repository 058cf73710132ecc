-- ===== src/Storage/Groups.antt =====
-- The groups of `FailedSSHByIP` of internal/storage/sqlite.go: each address has one, with its count.
use monitoring.Base.{
  count, All, Apart, Text, text_discrete, ℕ, ◌+◌, ◌<◌, ◌≡◌, refl, ◌∙◌, ◌≢◌, ite, if_pos, if_neg,
  Bool, true, false, List, [], ◌∷◌, arith,
}
use monitoring.Storage.Schema.{SshEvent, IpCount}
use monitoring.Storage.Events.{count_ip, group_by_ip}

abbrev pub is_from : Text → SshEvent → Bool
is_from ip e = ite (text_discrete e.source_ip ip) true false

-- The counts that a list of groups gives an address.
unfoldable pub total_of : Text → List IpCount → ℕ
total_of ip [] = 0
total_of ip (c ∷ rest) = (ite (text_discrete c.ip ip) c.count 0) + total_of ip rest

abbrev pub ip_of : IpCount → Text
ip_of c = c.ip

total_of-count_ip :
    (ip other : Text) (groups : List IpCount)
    → total_of ip (count_ip other groups) ≡ (ite (text_discrete other ip) 1 0) + total_of ip groups
unfolding total_of count_ip
total_of-count_ip ip other [] = ground arith
total_of-count_ip ip other (c ∷ rest) = ground (arith, total_of-count_ip ip other rest)

pub total_of-group_by_ip :
    (ip : Text) (rows : List SshEvent) → total_of ip (group_by_ip rows) ≡ count (is_from ip) rows
unfolding total_of group_by_ip
total_of-group_by_ip ip [] = refl
total_of-group_by_ip ip (e ∷ rest) =
    total_of-count_ip ip e.source_ip (group_by_ip rest)
    ∙ ground (arith, total_of-group_by_ip ip rest)

others-count_ip :
    (other ip : Text) (groups : List IpCount)
    → other ≢ ip
    → All (λ c. other ≢ ip_of c) groups
    → All (λ c. other ≢ ip_of c) (count_ip ip groups)
unfolding count_ip
others-count_ip other ip [] ne h = (ne, tt)
others-count_ip other ip (c ∷ rest) ne h = elim (text_discrete c.ip ip) [
  | yes e ↦ rw (if_pos (text_discrete c.ip ip) e) (h.0, h.1)
  | no n ↦ rw (if_neg (text_discrete c.ip ip) n) (h.0, others-count_ip other ip rest ne h.1)
]

Apart-count_ip :
    (ip : Text) (groups : List IpCount) → Apart ip_of groups → Apart ip_of (count_ip ip groups)
unfolding count_ip
Apart-count_ip ip [] h = (tt, tt)
Apart-count_ip ip (c ∷ rest) h = elim (text_discrete c.ip ip) [
  | yes e ↦ rw (if_pos (text_discrete c.ip ip) e) (h.0, h.1)
  | no n ↦
      rw (if_neg (text_discrete c.ip ip) n)
        (others-count_ip c.ip ip rest n h.0, Apart-count_ip ip rest h.1)
]

pub Apart-group_by_ip : (rows : List SshEvent) → Apart ip_of (group_by_ip rows)
unfolding group_by_ip
Apart-group_by_ip [] = tt
Apart-group_by_ip (e ∷ rest) =
    Apart-count_ip e.source_ip (group_by_ip rest) (Apart-group_by_ip rest)

count_ip-positive :
    (ip : Text) (groups : List IpCount)
    → All (λ c. 0 < c.count) groups
    → All (λ c. 0 < c.count) (count_ip ip groups)
unfolding count_ip
count_ip-positive ip [] h = (omega arith, tt)
count_ip-positive ip (c ∷ rest) h = elim (text_discrete c.ip ip) [
  | yes e ↦ rw (if_pos (text_discrete c.ip ip) e) (omega arith, h.1)
  | no n ↦ rw (if_neg (text_discrete c.ip ip) n) (h.0, count_ip-positive ip rest h.1)
]

pub group_by_ip-positive : (rows : List SshEvent) → All (λ c. 0 < c.count) (group_by_ip rows)
unfolding group_by_ip
group_by_ip-positive [] = tt
group_by_ip-positive (e ∷ rest) = count_ip-positive e.source_ip _ (group_by_ip-positive rest)
