-- ===== src/Storage/Events.antt =====
-- internal/storage/sqlite.go, "SSH Events" and "Tunnel Events".
use monitoring.Base.{
  leb, sort_desc, take, keep, Text, bytes, text_discrete, ℕ, suc, ◌+◌, ite, Bool, true, false, ◌&&◌,
  List, [], ◌∷◌,
}
use monitoring.Storage.Schema.{SshEvent, TunnelEvent, IpCount}
use monitoring.Storage.Session.{ok, Env, Action, exec}

unfoldable pub insert_ssh_event : Env → SshEvent → Action (Unit {0})
insert_ssh_event env e = exec env (λ t. ok (
  tt,
  record t { ssh_events = record e { id = t.next_ssh } ∷ t.ssh_events; next_ssh = suc t.next_ssh },
))

abbrev pub by_occurred_at : SshEvent → ℕ
by_occurred_at e = e.occurred_at

unfoldable pub recent_ssh_events : Env → ℕ → Action (List SshEvent)
recent_ssh_events env limit =
    exec env (λ t. ok (take limit (sort_desc by_occurred_at t.ssh_events), t))

abbrev pub event_failed : Text
event_failed = bytes "failed"

-- `WHERE event_type='failed' AND occurred_at >= ?`
abbrev pub is_failed_since : ℕ → SshEvent → Bool
is_failed_since since e =
    (ite (text_discrete e.event_type event_failed) true false) && leb since e.occurred_at

-- `GROUP BY source_ip` with `COUNT(*)`.
unfoldable pub count_ip : Text → List IpCount → List IpCount
count_ip ip [] = record { ip = ip; count = 1 } ∷ []
count_ip ip (c ∷ rest) =
    ite (text_discrete c.ip ip) (record c { count = c.count + 1 } ∷ rest) (c ∷ count_ip ip rest)

unfoldable pub group_by_ip : List SshEvent → List IpCount
unfolding count_ip
group_by_ip [] = []
group_by_ip (e ∷ rest) = count_ip e.source_ip (group_by_ip rest)

abbrev pub by_count : IpCount → ℕ
by_count c = c.count

unfoldable pub failed_ssh_by_ip : Env → ℕ → Action (List IpCount)
failed_ssh_by_ip env since = exec env (λ t.
    ok (take 20 (sort_desc by_count (group_by_ip (keep (is_failed_since since) t.ssh_events))), t))

unfoldable pub insert_tunnel_event : Env → TunnelEvent → Action (Unit {0})
insert_tunnel_event env e = exec env (λ t. ok (
  tt,
  record t {
    tunnel_events = record e { id = t.next_tunnel } ∷ t.tunnel_events;
    next_tunnel = suc t.next_tunnel;
  },
))

abbrev pub by_tunnel_time : TunnelEvent → ℕ
by_tunnel_time e = e.occurred_at

unfoldable pub recent_tunnel_events : Env → ℕ → Action (List TunnelEvent)
recent_tunnel_events env limit =
    exec env (λ t. ok (take limit (sort_desc by_tunnel_time t.tunnel_events), t))
