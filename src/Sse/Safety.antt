-- ===== src/Sse/Safety.antt =====
-- The steps of internal/sse/broker.go against the two panics of a Go channel: a send on a closed
-- channel and a second close.
use monitoring.Base.{Text, ℕ, ◌≡◌, sym, subst}
use monitoring.Sse.Broker.{Broker, new_broker, heartbeat_event}
use monitoring.Sse.Steps.{
  Step, registers, unregisters, broadcasts, beats, publishes, connects, leaves, receives, Reach,
  here, after,
}
use monitoring.Sse.Safe.{IsSafe, new_broker-IsSafe, publish-IsSafe, take_event-IsSafe}
use monitoring.Sse.Joining.{connect-IsSafe, leave-IsSafe, on_register-IsSafe}
use monitoring.Sse.Closing.{on_unregister-IsSafe, on_broadcast-IsSafe}

module _ (id_of : ℕ → Text) where
  module _ (distinct : (i j : ℕ) → id_of i ≡ id_of j → i ≡ j) where
    pub Step-IsSafe : {b c : Broker} → Step id_of b c → IsSafe id_of b → IsSafe id_of c
    Step-IsSafe {b} (registers h rest e to) s =
        subst (IsSafe id_of) (sym to) (on_register-IsSafe id_of distinct h rest b e s)
    Step-IsSafe {b} (unregisters h rest e to) s =
        subst (IsSafe id_of) (sym to) (on_unregister-IsSafe id_of h rest b e s)
    Step-IsSafe {b} (broadcasts evt rest e to) s = subst (IsSafe id_of) (sym to) (
        on_broadcast-IsSafe id_of evt (record b { broadcast = rest })
          (record {
            members = s.members;
            pending = s.pending;
            pending_once = s.pending_once;
            leaving = s.leaving;
            leaving_once = s.leaving_once;
            serving_open = s.serving_open;
            calm = s.calm;
          }))
    Step-IsSafe {b} (beats to) s =
        subst (IsSafe id_of) (sym to) (publish-IsSafe id_of heartbeat_event b s)
    Step-IsSafe {b} (publishes evt to) s =
        subst (IsSafe id_of) (sym to) (publish-IsSafe id_of evt b s)
    Step-IsSafe {b} (connects room to) s =
        subst (IsSafe id_of) (sym to) (connect-IsSafe id_of distinct b s)
    Step-IsSafe {b} (leaves h serves room to) s =
        subst (IsSafe id_of) (sym to) (leave-IsSafe id_of h b serves s)
    Step-IsSafe {b} (receives h evt rest serves e to) s =
        subst (IsSafe id_of) (sym to) (take_event-IsSafe id_of h rest b s)

    -- If no two connections draw the same id, then in every reachable state of the broker,
    -- whatever the order of the steps of `Run`, the publishers and the connections, nothing has
    -- panicked: no event is sent to a closed channel and none is closed twice; and a connection
    -- that is still served has an open channel.
    pub Reach-IsSafe : {b : Broker} → Reach id_of new_broker b → IsSafe id_of b
    Reach-IsSafe here = new_broker-IsSafe id_of
    Reach-IsSafe (after r st) = Step-IsSafe st (Reach-IsSafe r)
