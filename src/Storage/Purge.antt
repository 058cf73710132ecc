-- ===== src/Storage/Purge.antt =====
-- internal/storage/sqlite.go, `Purge`: old records are deleted, in four statements.
use monitoring.Base.{ltb, keep, ℕ, ◌+◌, ◌*◌, Bool, false, not, none, some}
use monitoring.Storage.Schema.{Alert, UrlResult, SshEvent, TunnelEvent}
use monitoring.Storage.Session.{ok, Env, Action, ◌>>=◌, ◌>>◌, now, exec}

-- `column < now - days*86400`, with the subtraction on the other side: it may fall below zero.
abbrev pub is_before : ℕ → ℕ → ℕ → Bool
is_before days time column = ltb (column + days * 86400) time

-- `resolved_at IS NOT NULL AND resolved_at < …`
abbrev pub is_stale : ℕ → Alert → Bool
is_stale time a = elim a.resolved_at [ none ↦ false | some r ↦ is_before 14 time r ]

abbrev pub purge_results : Env → ℕ → Action (Unit {0})
purge_results env time = exec env (λ t. ok (
  tt,
  record t {
    url_check_results =
        keep (λ (r : UrlResult). not (is_before 7 time r.checked_at)) t.url_check_results;
  },
))

abbrev pub purge_ssh : Env → ℕ → Action (Unit {0})
purge_ssh env time = exec env (λ t. ok (
  tt,
  record t {
    ssh_events = keep (λ (e : SshEvent). not (is_before 30 time e.occurred_at)) t.ssh_events;
  },
))

abbrev pub purge_tunnel : Env → ℕ → Action (Unit {0})
purge_tunnel env time = exec env (λ t. ok (
  tt,
  record t {
    tunnel_events =
        keep (λ (e : TunnelEvent). not (is_before 30 time e.occurred_at)) t.tunnel_events;
  },
))

abbrev pub purge_alerts : Env → ℕ → Action (Unit {0})
purge_alerts env time =
    exec env (λ t. ok (tt, record t { alerts = keep (λ a. not (is_stale time a)) t.alerts }))

unfoldable pub purge : Env → Action (Unit {0})
purge env = do
  time ← now env
  purge_results env time
  purge_ssh env time
  purge_tunnel env time
  purge_alerts env time
