-- ===== src/Tunnel/Transitions.antt =====
-- The events that `Collect` of internal/tunnel/tunnel.go writes, over any sequence of its runs.
use mathlib.Core.List.{append_assoc}
use mathlib.Core.Path.{ap₂}
use monitoring.Tunnel.Names.{contains, lower, is_cloudflared}
use monitoring.Base.{
  if◌then◌else◌, is_some, Text, bytes, ℕ, suc, ◌≡◌, refl, sym, ap, subst, ◌∙◌, Bool, true, false,
  ◌||◌, Option, none, some, List, [], ◌∷◌, ◌++◌, map, arith,
}
use monitoring.Storage.{
  TunnelEvent, Env, World, IsReliable, now, exec, insert_tunnel_event, recent_tunnel_events,
}
use monitoring.Tunnel.Detector.{
  Process, Detector, find_process, connected, disconnected, log_transition, look, processes_or_none,
  collect,
}

-- A log, newest event first, whose events alternate, from a tunnel that was not running to one that
-- runs or does not.
unfoldable pub Alternates : Bool → List Text → Type 0
Alternates true [] = false ≡ true
Alternates true (t ∷ ts) = (t ≡ connected) × Alternates false ts
Alternates false [] = Unit {0}
Alternates false (t ∷ ts) = (t ≡ disconnected) × Alternates true ts

abbrev pub log_of : World → List Text
log_of w = map (λ (e : TunnelEvent). e.event_type) w.tables.tunnel_events

-- What one run is given: the processes, and the version that the command prints.
abbrev pub Sight : Type 0
Sight = Option (List Process) × Option Text

unfoldable pub watch : Env → List Sight → Detector → World → Detector × World
watch env [] d w = (d, w)
watch env (o ∷ os) d w = let (_, d', w') = collect env o.0 o.1 d w in watch env os d' w'

running-look :
    (p : Option Process) (found : Option Text) (time : ℕ) (d : Detector)
    → (look p found time d).0.running ≡ is_some p
running-look none found time d = refl
running-look (some p) found time d = refl

-- Whether one of the processes has cloudflared in its name, in any case of the letters.
abbrev pub is_tunnel : Option Text → Bool
is_tunnel none = false
is_tunnel (some name) = contains (map lower name) (bytes "cloudflared")

unfoldable pub has_tunnel : List Process → Bool
has_tunnel [] = false
has_tunnel (p ∷ ps) = is_tunnel p.name || has_tunnel ps

abbrev pub sees : Sight → Bool
sees o = has_tunnel (processes_or_none o.0)

-- The event between two sights, and the events of a sequence of sights, newest first.
abbrev pub change : Bool → Bool → List Text
change true false = bytes "disconnected" ∷ []
change false true = bytes "connected" ∷ []
change true true = []
change false false = []

unfoldable pub changes : Bool → List Bool → List Text
changes was [] = []
changes was (b ∷ bs) = changes b bs ++ change was b

unfoldable pub last_seen : Bool → List Bool → Bool
last_seen was [] = was
last_seen was (b ∷ bs) = last_seen b bs

found_case :
    (name : Option Text) (p : Process) (rest : Option Process)
    → is_some (elim name [ none ↦ rest | some n ↦ if is_cloudflared n then some p else rest ])
      ≡ (is_tunnel name || is_some rest)
unfolding is_cloudflared
found_case none p rest = refl
found_case (some n) p rest = ground arith

found-has_tunnel : (ps : List Process) → is_some (find_process ps) ≡ has_tunnel ps
unfolding find_process has_tunnel
found-has_tunnel [] = refl
found-has_tunnel (p ∷ ps) =
    found_case p.name p (find_process ps) ∙ ap (◌||◌ (is_tunnel p.name)) (found-has_tunnel ps)

module _ (env : Env) (reliable : IsReliable env) where
  log_transition-Alternates :
      (was is : Bool) (time : ℕ) (w : World)
      → Alternates was (log_of w)
      → Alternates is (log_of (log_transition env was is time w))
  unfolding log_transition insert_tunnel_event Alternates
  log_transition-Alternates true true time w a = a
  log_transition-Alternates true false time w a =
      rw (reliable w.calls, log_transition, insert_tunnel_event, exec) (refl, a)
  log_transition-Alternates false true time w a =
      rw (reliable w.calls, log_transition, insert_tunnel_event, exec) (refl, a)
  log_transition-Alternates false false time w a = a

  log-log_transition :
      (was is : Bool) (time : ℕ) (w : World)
      → log_of (log_transition env was is time w) ≡ change was is ++ log_of w
  unfolding log_transition insert_tunnel_event
  log-log_transition true true time w = refl
  log-log_transition true false time w =
      rw (reliable w.calls, log_transition, insert_tunnel_event, exec) refl
  log-log_transition false true time w =
      rw (reliable w.calls, log_transition, insert_tunnel_event, exec) refl
  log-log_transition false false time w = refl

  -- The query at the end leaves the log as it is.
  log-recent_tunnel_events :
      (limit : ℕ) (w : World) → log_of (recent_tunnel_events env limit w).1 ≡ log_of w
  unfolding recent_tunnel_events
  log-recent_tunnel_events limit w = ground (arith, reliable w.calls)

  collect-Alternates :
      (o : Sight) (d : Detector) (w : World)
      → Alternates d.last_running (log_of w)
      → let (s, d', w') = collect env o.0 o.1 d w in
        (d'.last_running ≡ s.running)
        × (s.running ≡ is_some (find_process (processes_or_none o.0)))
        × Alternates s.running (log_of w')
  unfolding collect
  collect-Alternates o d w a =
      let found = find_process (processes_or_none o.0) in
      let is = (look found o.1 (env.clock w.reads) d).0.running in
      let time = env.clock (suc w.reads) in
      let w1 = record w { reads = suc (suc w.reads) } in
      (
        refl,
        running-look found o.1 (env.clock w.reads) d,
        subst (Alternates is)
            (sym (log-recent_tunnel_events 10 (log_transition env d.last_running is time w1)))
            (log_transition-Alternates d.last_running is time w1 a),
      )

  collect-sees :
      (o : Sight) (d : Detector) (w : World)
      → let (s, d', w') = collect env o.0 o.1 d w in
        (d'.last_running ≡ sees o) × (log_of w' ≡ change d.last_running (sees o) ++ log_of w)
  unfolding collect
  collect-sees o d w =
      let found = find_process (processes_or_none o.0) in
      let time = env.clock (suc w.reads) in
      let w1 = record w { reads = suc (suc w.reads) } in
      let is = (look found o.1 (env.clock w.reads) d).0.running in
      let same : is ≡ sees o =
        running-look found o.1 (env.clock w.reads) d ∙ found-has_tunnel (processes_or_none o.0) in
      (
        same,
        log-recent_tunnel_events 10 (log_transition env d.last_running is time w1)
            ∙ log-log_transition d.last_running is time w1
            ∙ ap (λ b. change d.last_running b ++ log_of w) same,
      )

  -- Take a database whose statements all succeed, in which the events alternate between connected
  -- and disconnected, the newest one telling what the detector saw last, and any sequence of runs
  -- of `Collect`. Then at the end the log has, in front of what it had, just the events of the
  -- transitions between the runs, a run seeing a tunnel if the name of one of its processes
  -- contains "cloudflared" in any case: none is logged twice and none is missed. The detector
  -- knows what the last run saw, and the events alternate as before.
  pub watch-Alternates :
      (os : List Sight) (d : Detector) (w : World)
      → Alternates d.last_running (log_of w)
      → let (d', w') = watch env os d w in
        (log_of w' ≡ changes d.last_running (map sees os) ++ log_of w)
        × (d'.last_running ≡ last_seen d.last_running (map sees os))
        × Alternates d'.last_running (log_of w')
  unfolding watch changes last_seen
  watch-Alternates [] d w a = (refl, refl, a)
  watch-Alternates (o ∷ os) d w a =
      let (_, d', w') = collect env o.0 o.1 d w in
      let (same, _, b) = collect-Alternates o d w a in
      let (now, logged) = collect-sees o d w in
      let (more, last, c) =
        watch-Alternates os d' w' (subst (λ r. Alternates r (log_of w')) (sym same) b) in
      (
        more
            ∙ ap₂ (λ r l. changes r (map sees os) ++ l) now logged
            ∙ sym (append_assoc (changes (sees o) (map sees os)) _ (log_of w)),
        last ∙ ap (λ r. last_seen r (map sees os)) now,
        c,
      )
