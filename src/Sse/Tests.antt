-- ===== src/Sse/Tests.antt =====
-- A broker of internal/sse/broker.go with one client, and the theorems about it at that broker.
use mathlib.Core.List.{Memᴰ}
use monitoring.Base.{
  decimal, decimal-injective, All, lookup, insert, bytes, text_discrete, ℕ, ◌≡◌, refl, ◌≢◌, some,
  List, [], ◌∷◌, arith, ℕ_discrete,
}
use monitoring.Sse.Frames.{frame, stream, read_stream, read-stream}
use monitoring.Sse.Broker.{
  Event, gone, Broker, new_broker, publish, heartbeat_event, offer, fan_out, on_register,
  on_broadcast, connect,
}
use monitoring.Sse.Steps.{registers, broadcasts, beats, connects, Reach, here, after}
use monitoring.Sse.Fanout.{Entry}
use monitoring.Sse.Safe.{IsSafe}
use monitoring.Sse.Safety.{Reach-IsSafe}
use monitoring.Sse.Leak.{leak}
use monitoring.Sse.Delivery.{delivery}

abbrev joined : Broker
joined = on_register decimal 0 (record (connect new_broker) { register = [] })

abbrev told : Broker
told = on_broadcast heartbeat_event (record (publish heartbeat_event joined) { broadcast = [] })

Reach-joined : Reach decimal new_broker joined
unfolding connect new_broker
Reach-joined = after (after here (connects (omega arith) refl)) (registers 0 [] refl refl)

Reach-told : Reach decimal new_broker told
unfolding connect new_broker on_register publish lookup insert
Reach-told = after (after Reach-joined (beats refl)) (broadcasts heartbeat_event [] refl refl)

-- The client's channel holds the event that was broadcast.
told_queue : (told.sends 0).queue ≡ heartbeat_event ∷ []
unfolding on_broadcast fan_out publish on_register connect new_broker insert ℕ_discrete
told_queue = refl

Reach-IsSafe_example : IsSafe decimal told
Reach-IsSafe_example = Reach-IsSafe decimal decimal-injective Reach-told

leak_example :
    (b : Broker) × Reach decimal new_broker b
    × (b.phase 0 ≡ gone)
    × ((c : Broker) → Reach decimal b c → lookup text_discrete (decimal 0) c.clients ≡ some 0)
leak_example = leak decimal decimal-injective

delivery_example :
    ((x : Entry)
      → Memᴰ x joined.clients
      → (on_broadcast heartbeat_event joined).sends x.1 ≡ offer heartbeat_event (joined.sends x.1))
    × ((j : ℕ)
        → All (λ (x : Entry). x.1 ≢ j) joined.clients
        → (on_broadcast heartbeat_event joined).sends j ≡ joined.sends j)
delivery_example = delivery decimal decimal-injective joined heartbeat_event Reach-joined

abbrev two_events : List Event
two_events =
    record { type = bytes "alert"; payload = bytes "{}" }
    ∷ record { type = bytes "m"; payload = [] }
    ∷ []

two_events_text : stream two_events ≡ bytes "event: alert\ndata: {}\n\nevent: m\ndata: \n\n"
unfolding stream frame
two_events_text = refl

read-stream_example : read_stream (stream two_events) ≡ two_events
read-stream_example =
    read-stream two_events ((refl, ground arith, ground arith), ((refl, ground arith, tt), tt))
