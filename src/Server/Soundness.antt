-- ===== src/Server/Soundness.antt =====
-- The whole program of cmd/server/main.go, from its start on: the alerts in memory and in the table, and
-- the checks in memory and in the table, through any turns.
use monitoring.Base.{
  is_some, All, Text, ℕ, suc, ◌<◌, ◌≡◌, refl, sym, ap, ◌∙◌, Bool, true, Option, none, some, List,
  [], ◌∷◌, arith,
}
use monitoring.Storage.{
  UrlCheck, Tables, World, IsReliable, TablesAreUnique, migrate, open_database,
}
use monitoring.Alerts.Sync.{InSync, InSync-same}
use monitoring.Alerts.Engine.{Engine, new_engine, load_thresholds}
use monitoring.Alerts.Restart.{restart}
use monitoring.Metrics.Network.{Connection, NetworkSnapshot, collect_network}
use monitoring.Metrics.Counts.{HasPorts, collect_network-counts}
use monitoring.Tunnel
use monitoring.UrlCheck.Checker.{CheckResult, background, new_checker, start}
use monitoring.UrlCheck.Numbers.{RowsBelow}
use monitoring.UrlCheck.Starting.{has_enabled, start-IsTidy}
use monitoring.Security.AuthLog.{parse}
use monitoring.Security.Snapshot.{snapshot}
use monitoring.Server.Loops.{
  Server, Payload, FastReadings, SlowReadings, fast_tick, slow_tick, purge_tick, relay,
  relay_result,
}
use monitoring.Server.Program.{
  boot, start_program, Turn, fast_turn, slow_turn, purge_turn, relay_turn, restart_turn, check_turn,
  acknowledge_turn, threshold_turn, Surroundings, take_turn, continue, run_turns,
}
use monitoring.Server.Frames.{SameBoth-trans, collect-Same, parse-Same, snapshot-Same}
use monitoring.Server.Keeping.{
  IsSound, InSync-Same, IsSound-world, evaluate_alerts-IsSound, acknowledge-IsSound, purge-IsSound,
  serve-IsSound, thresholds-IsSound,
}

enabled_row-lt :
    (i n : ℕ) (rows : List UrlCheck) → has_enabled i rows ≡ true → RowsBelow n rows → i < n
enabled_row-lt i n [] e h = cc
enabled_row-lt i n (u ∷ rows) e h = ground (arith, h.0, enabled_row-lt i n rows, h.1)

-- A turn that cannot panic: the ports of the connections are numbers of type uint32.
abbrev pub HasAllPorts : Option (List Connection) → Type 0
HasAllPorts none = Unit {0}
HasAllPorts (some conns) = All HasPorts conns

abbrev pub IsSafeTurn : Turn → Type 0
IsSafeTurn (fast_turn r) = HasAllPorts r.connections
IsSafeTurn _ = Unit {0}

abbrev pub EndsSound : Option Server → Type 0
EndsSound none = ⊥
EndsSound (some s) = IsSound s.app

pub collect_network-runs :
    (conns : Option (List Connection))
    → HasAllPorts conns
    → (net : NetworkSnapshot) × (collect_network conns ≡ some net)
unfolding collect_network
collect_network-runs none h = (_, refl)
collect_network-runs (some conns) h = (_, collect_network-counts conns h)

continue-EndsSound :
    (f : Server → Option Server)
    → ((s : Server) → IsSound s.app → EndsSound (f s))
    → (o : Option Server) → EndsSound o
    → EndsSound (continue f o)
continue-EndsSound f g none k = elim k [ ]
continue-EndsSound f g (some s) k = g s k

relay-IsSound :
    (encode : Payload → Option Text) (results : List CheckResult) (s : Server)
    → IsSound s.app
    → IsSound (relay encode results s).app
relay-IsSound encode [] s h = h
relay-IsSound encode (r ∷ rest) s h = record {
  sync = h.sync;
  kept = record {
    tidy = record {
      owned = h.kept.tidy.owned;
      one_id = h.kept.tidy.one_id;
      below = h.kept.tidy.below;
      single = h.kept.tidy.single;
      shown = h.kept.tidy.shown;
      keys = h.kept.tidy.keys;
      bounded = h.kept.tidy.bounded;
    };
    ids = h.kept.ids;
    rows = h.kept.rows;
  };
  unique = h.unique;
}

module _ (x : Surroundings) (reliable : IsReliable x.env) where
  fast_tick-IsSound :
      (r : FastReadings) (s : Server)
      → HasAllPorts r.connections
      → IsSound s.app
      → EndsSound (fast_tick x.env x.encode x.wild r s)
  unfolding fast_tick
  fast_tick-IsSound r s ports h =
      let (net, e) = collect_network-runs r.connections ports in
      let tun = Tunnel.Detector.collect x.env r.processes r.version s.detector s.app.world in
      rw (e, fast_tick)
        (evaluate_alerts-IsSound x.env reliable _ _ (record s.app { world = tun.2 }) s.broker
          (IsSound-world s.app tun.2
            (collect-Same x.env r.processes r.version s.detector s.app.world) h))

  slow_tick-IsSound :
      (r : SlowReadings) (s : Server)
      → IsSound s.app
      → IsSound (slow_tick x.env x.encode x.matchers x.time r s).app
  unfolding slow_tick
  slow_tick-IsSound r s h =
      let p = parse x.env x.matchers r.log s.parser s.app.world in
      IsSound-world s.app (snapshot x.env r.updates p.0 p.2).2
        (SameBoth-trans (parse-Same x.env x.matchers r.log s.parser s.app.world)
          (snapshot-Same x.env r.updates p.0 p.2))
        h

  boot-IsSound :
      (active : List (Text × ℕ)) (exists : Text → Bool) (services : List Text) (w : World)
      → InSync active w.tables
      → TablesAreUnique w.tables
      → IsSound (boot x.env exists services w).app
  unfolding boot
  boot-IsSound active exists services w sync unique =
      let e0 : Engine = record { thresholds = []; active = active } in
      let (_, _, held, same) = restart x.env reliable e0 w sync in
      let l = load_thresholds x.env new_engine w in
      let (_, tidy, enabled, same', _, _) =
        start-IsTidy x.env background l.2 reliable (rw same unique.ids) in
      let c = start x.env background new_checker l.2 in
      let tables : c.2.tables ≡ w.tables = same' ∙ same in
      record {
        sync = rw tables (InSync-same sync l.0.active w.tables refl refl held);
        kept = record {
          tidy = tidy;
          ids = λ i h e. rw tables (
              enabled_row-lt i w.tables.next_check w.tables.url_checks
                (ap (λ (t : Tables). has_enabled i t.url_checks) (sym same)
                  ∙ sym (enabled i)
                  ∙ ap is_some e)
                unique.below);
          rows = rw tables unique.below;
        };
        unique = rw tables unique;
      }

  start_program-IsSound :
      (active : List (Text × ℕ)) (exists : Text → Bool) (services : List Text) (calls reads : ℕ)
      (file : Option Tables)
      → InSync active (migrate file)
      → TablesAreUnique (migrate file)
      → EndsSound (start_program x.env exists services calls reads file)
  unfolding start_program open_database
  start_program-IsSound active exists services calls reads file sync unique =
      rw (reliable calls, start_program, open_database)
        (boot-IsSound active exists services
          (record { tables = migrate file; calls = suc calls; reads = reads }) sync unique)

  restart-IsSound :
      (s : Server)
      → IsSound s.app
      → EndsSound (
          start_program x.env x.exists x.services s.app.world.calls s.app.world.reads
            (some s.app.world.tables))
  unfolding migrate
  restart-IsSound s h =
      start_program-IsSound s.app.engine.active x.exists x.services s.app.world.calls
        s.app.world.reads (some s.app.world.tables)
        (InSync-Same (record { rows = refl; next = refl }) h.sync)
        (record { ids = h.unique.ids; urls = h.unique.urls; below = h.unique.below })

  take_turn-IsSound :
      (t : Turn) (s : Server) → IsSafeTurn t → IsSound s.app → EndsSound (take_turn x t s)
  unfolding take_turn purge_tick relay_result
  take_turn-IsSound (fast_turn r) s safe h = fast_tick-IsSound r s safe h
  take_turn-IsSound (slow_turn r) s safe h = slow_tick-IsSound r s h
  take_turn-IsSound purge_turn s safe h = purge-IsSound x.env reliable s.app h
  take_turn-IsSound relay_turn s safe h = relay-IsSound x.encode s.app.checker.results s h
  take_turn-IsSound restart_turn s safe h = restart-IsSound s h
  take_turn-IsSound (check_turn r) s safe h = serve-IsSound x.env reliable r s.app h
  take_turn-IsSound (acknowledge_turn m id) s safe h =
      acknowledge-IsSound x.env reliable m id s.app h
  take_turn-IsSound (threshold_turn m body) s safe h =
      thresholds-IsSound x.env reliable m body s.app h

  run_turns-IsSound :
      (ts : List Turn) (s : Server)
      → All IsSafeTurn ts
      → IsSound s.app
      → EndsSound (run_turns x ts s)
  unfolding run_turns
  run_turns-IsSound [] s safe h = h
  run_turns-IsSound (t ∷ ts) s safe h =
      continue-EndsSound (run_turns x ts) (λ s' k. run_turns-IsSound ts s' safe.1 k)
        (take_turn x t s) (take_turn-IsSound t s safe.0 h)

  -- Let all statements succeed, and let the file of the database be empty, or its tables be those
  -- of a run that ended: every kind has at most one open alert, the ids of the alerts lie below
  -- the next one, no two rows of url_checks share an id or a url, and their ids lie below the
  -- next one. Start the program, and let it take any turns: fast ticks in which the ports of the
  -- connections are of type uint32, slow ticks, purges, relays of results, probes, requests on
  -- the URL checks, acknowledgements, changes of thresholds, and ends of the program with a new
  -- start on the same file, in any order. Then it starts and does not panic, and at the end the
  -- map of active alerts holds just the open alerts of the table, of each kind one at most, and
  -- the checker is tidy: at most one goroutine runs per id, which is the one that its map holds,
  -- the ids of its map and of the rows lie below the next one, and no two rows of url_checks
  -- share an id or a url.
  pub program-IsSound :
      (active : List (Text × ℕ)) (exists : Text → Bool) (services : List Text)
      (file : Option Tables) (ts : List Turn)
      → InSync active (migrate file)
      → TablesAreUnique (migrate file)
      → All IsSafeTurn ts
      → EndsSound (continue (run_turns x ts) (start_program x.env exists services 0 0 file))
  program-IsSound active exists services file ts sync unique safe =
      continue-EndsSound (run_turns x ts) (λ s h. run_turns-IsSound ts s safe h)
        (start_program x.env exists services 0 0 file)
        (start_program-IsSound active exists services 0 0 file sync unique)
