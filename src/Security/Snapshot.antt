-- ===== src/Security/Snapshot.antt =====
-- internal/security/security.go: the snapshot of the recent logins. What apt-get prints is an argument.
use mathlib.Core.List.{append_assoc, append-nil}
use monitoring.Base.{
  if◌then◌else◌, is_some, sort_desc, take, keep, Text, bytes, text_discrete, ℤ, pos, ℕ, suc, ◌-◌,
  ◌*◌, ◌≡◌, refl, ap, ◌∙◌, ite, Bool, true, false, ◌&&◌, ◌||◌, not, Option, List, [], ◌∷◌, ◌++◌,
  arith,
}
use monitoring.Storage.{
  SshEvent, IpCount, Result, ok, err, Env, World, IsReliable, exec, by_occurred_at,
  recent_ssh_events, failed_ssh_by_ip,
}
use monitoring.Security.Search.{check_pending_updates}
use monitoring.Security.Updates.{update_counts, check_pending_updates-counts}
use monitoring.Security.AuthLog.{Parser}

pub record Snapshot : Type 0 where
  pub collected_at : ℕ
  pub recent_failed : List SshEvent
  pub recent_success : List SshEvent
  pub top_failed_ips : List IpCount
  pub pending_updates : ℤ
  pub pending_sec_updates : ℤ
  pub log_available : Bool

abbrev pub has_type : Text → SshEvent → Bool
has_type type e = ite (text_discrete e.event_type type) true false

-- The `switch` on the event's type.
unfoldable pub add_event : SshEvent → Snapshot → Snapshot
add_event e s =
    if has_type (bytes "failed") e || has_type (bytes "invalid_user") e
    then record s { recent_failed = s.recent_failed ++ e ∷ [] }
    else if has_type (bytes "success") e
    then record s { recent_success = s.recent_success ++ e ∷ [] }
    else s

unfoldable pub add_events : List SshEvent → Snapshot → Snapshot
add_events [] s = s
add_events (e ∷ rest) s = add_events rest (add_event e s)

abbrev pub with_updates : ℤ × ℤ → Snapshot → Snapshot
with_updates (total, sec) s = record s { pending_updates = total; pending_sec_updates = sec }

abbrev pub after_groups :
    Option (List Text)
    → Snapshot
    → Result (List IpCount) × World
    → Snapshot × Result (Unit {0}) × World
after_groups out s (ok ips, w) =
    (with_updates (check_pending_updates out) (record s { top_failed_ips = ips }), ok tt, w)
after_groups out s (err e, w) = (s, err e, w)

abbrev pub after_recent_events :
    Env
    → Option (List Text)
    → Snapshot
    → Result (List SshEvent) × World
    → Snapshot × Result (Unit {0}) × World
after_recent_events env out s (ok events, w) =
    after_groups out (add_events events s)
      (failed_ssh_by_ip env (env.clock w.reads - 24 * 3600) (record w { reads = suc w.reads }))
after_recent_events env out s (err e, w) = (s, err e, w)

unfoldable pub snapshot :
    Env → Option (List Text) → Parser → World → Snapshot × Result (Unit {0}) × World
unfolding add_events
snapshot env out p w =
    after_recent_events env out
      (record {
        collected_at = env.clock w.reads;
        recent_failed = [];
        recent_success = [];
        top_failed_ips = [];
        pending_updates = pos 0;
        pending_sec_updates = pos 0;
        log_available = is_some p.log_path;
      })
      (recent_ssh_events env 50 (record w { reads = suc w.reads }))

abbrev pub is_failure : SshEvent → Bool
is_failure e = has_type (bytes "failed") e || has_type (bytes "invalid_user") e

abbrev pub is_success : SshEvent → Bool
is_success e = not (is_failure e) && has_type (bytes "success") e

add_events-keep :
    (events : List SshEvent) (s : Snapshot)
    → add_events events s ≡ record s {
      recent_failed = s.recent_failed ++ keep is_failure events;
      recent_success = s.recent_success ++ keep is_success events;
    }
unfolding add_events add_event
add_events-keep [] s = ground (arith, append-nil s.recent_failed, append-nil s.recent_success)
add_events-keep (e ∷ rest) s =
    add_events-keep rest (add_event e s)
    ∙ ground (
      arith,
      append_assoc s.recent_failed (e ∷ []) (keep is_failure rest),
      append_assoc s.recent_success (e ∷ []) (keep is_success rest),
    )

module _ (env : Env) (reliable : IsReliable env) where
  -- If all statements succeed, the security snapshot has no error and leaves the tables as they
  -- are; of the 50 newest login events its two lists hold, in order, those that failed or named
  -- an invalid user, and those that succeeded. Its counts of updates are -1 where apt-get cannot
  -- be run, and otherwise that of the lines which the scanner yields, and that of those among
  -- them whose lower case contains "security".
  pub snapshot-events :
      (out : Option (List Text)) (p : Parser) (w : World)
      → let (s, r, w') = snapshot env out p w in
        let events = take 50 (sort_desc by_occurred_at w.tables.ssh_events) in
        (r ≡ ok tt)
        × (s.recent_failed ≡ keep is_failure events)
        × (s.recent_success ≡ keep is_success events)
        × ((s.pending_updates, s.pending_sec_updates) ≡ update_counts out)
        × (w'.tables ≡ w.tables)
  unfolding snapshot recent_ssh_events failed_ssh_by_ip
  snapshot-events out p w =
      let events = take 50 (sort_desc by_occurred_at w.tables.ssh_events) in
      rw (reliable w.calls, snapshot, after_recent_events, recent_ssh_events, exec)
        (rw (reliable (suc w.calls), after_groups, failed_ssh_by_ip, exec)
          (
            refl,
            ap (λ s. s.recent_failed) (add_events-keep events _),
            ap (λ s. s.recent_success) (add_events-keep events _),
            check_pending_updates-counts out,
            refl,
          ))
