-- ===== src/Security/Recorded.antt =====
-- `parse` of internal/security/authlog.go: the events that some lines leave in the table.
use mathlib.Core.Path.{ap₂}
use monitoring.Base.{
  Option-cases, is_some, All, Text, ℕ, suc, ◌≡◌, refl, ◌∙◌, inl, inr, Bool, true, Option, none,
  some, List, [], ◌∷◌, map, arith,
}
use monitoring.Storage.{SshEvent, Error, Env, World, exec, insert_ssh_event}
use monitoring.Security.AuthLog.{
  Match, Moment, Matchers, moment_of, date_or_now, parse_timestamp, event_of, match_line,
  after_match, parse_auth_log_line, drop_return, ingest_line, ingest,
}

-- The timestamp of the event that a line tells is one.
unfoldable pub is_dated : Matchers → Text → Bool
is_dated m line = elim (match_line m (drop_return line)) [
  | none ↦ true
  | some found ↦ is_some (moment_of m found.1.stamp)
]

abbrev pub IsDated : Matchers → Text → Type 0
IsDated m line = is_dated m line ≡ true

abbrev event_at : Matchers → ℕ → Text → Match → Option Moment → Option SshEvent
event_at m year type g none = none
event_at m year type g (some t) = some (event_of type g (m.date year t))

abbrev event_found : Matchers → ℕ → Option (Text × Match) → Option SshEvent
event_found m year none = none
event_found m year (some (type, g)) = event_at m year type g (moment_of m g.stamp)

-- The event that a line tells.
unfoldable pub told : Matchers → ℕ → Text → Option SshEvent
told m year line = event_found m year (match_line m (drop_return line))

abbrev pub no_id : SshEvent → SshEvent
no_id e = record e { id = 0 }

-- The events of some lines, newest first, in front of others, but for those whose statements fail.
unfoldable pub recorded : Env → Matchers → ℕ → ℕ → List Text → List SshEvent → List SshEvent
recorded env m year calls [] events = events
recorded env m year calls (line ∷ rest) events = elim (told m year line) [
  | none ↦ recorded env m year calls rest events
  | some e ↦ elim (env.faults calls) [
    | none ↦ recorded env m year (suc calls) rest (e ∷ events)
    | some x ↦ recorded env m year (suc calls) rest events
  ]
]

calls-insert_ssh_event :
    (env : Env) (e : SshEvent) (w : World) → (insert_ssh_event env e w).1.calls ≡ suc w.calls
unfolding insert_ssh_event
calls-insert_ssh_event env e w = ground (arith, Option-cases (env.faults w.calls))

events-insert_ssh_event :
    (env : Env) (e : SshEvent) (w : World)
    → env.faults w.calls ≡ none
    → map no_id (insert_ssh_event env e w).1.tables.ssh_events
      ≡ no_id e ∷ map no_id w.tables.ssh_events
unfolding insert_ssh_event
events-insert_ssh_event env e w fine = rw (fine, exec) refl

events-failed_insert :
    (env : Env) (e : SshEvent) (w : World) (x : Error)
    → env.faults w.calls ≡ some x
    → map no_id (insert_ssh_event env e w).1.tables.ssh_events ≡ map no_id w.tables.ssh_events
unfolding insert_ssh_event
events-failed_insert env e w x bad = rw (bad, exec) refl

pub ingest-recorded :
    (env : Env) (m : Matchers) (year : ℕ) (lines : List Text) (w : World)
    → All (IsDated m) lines
    → map no_id (ingest env m year lines w).tables.ssh_events
      ≡ recorded env m year w.calls lines (map no_id w.tables.ssh_events)
unfolding ingest recorded ingest_line parse_auth_log_line parse_timestamp is_dated told
ingest-recorded env m year [] w h = refl
ingest-recorded env m year (line ∷ rest) w h =
    elim (Option-cases (match_line m (drop_return line))) [
      | inl e ↦
          rw (e, ingest, ingest_line, after_match, recorded, told, event_found)
            (ingest-recorded env m year rest w h.1)
      | inr ((type, g), e) ↦ elim (Option-cases (moment_of m g.stamp)) [
        | inl f ↦ absurd (ground (arith, e, f, h.0))
        | inr (t, f) ↦
            let event = event_of type g (m.date year t) in
            let w' = (insert_ssh_event env event w).1 in
            let later = ingest-recorded env m year rest w' h.1 in
            let then = λ (c : ℕ) (events : List SshEvent). recorded env m year c rest events in
            let counted = calls-insert_ssh_event env event w in
            elim (Option-cases (env.faults w.calls)) [
              | inl fine ↦
                  rw
                    (
                      e, f, fine, ingest, ingest_line, after_match, date_or_now, recorded, told,
                      event_found, event_at,
                    )
                    (later ∙ ap₂ then counted (events-insert_ssh_event env event w fine))
              | inr (x, bad) ↦
                  rw
                    (
                      e, f, bad, ingest, ingest_line, after_match, date_or_now, recorded, told,
                      event_found, event_at,
                    )
                    (later ∙ ap₂ then counted (events-failed_insert env event w x bad))
            ]
      ]
    ]
