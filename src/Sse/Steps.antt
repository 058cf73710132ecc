-- ===== src/Sse/Steps.antt =====
-- internal/sse/broker.go: one step of the goroutine that runs `Run`, of a publisher, or of a
-- connection in `ServeHTTP`. Go's `select` takes any case that is ready, so the order of the steps
-- is free; a send to a full channel waits.
use monitoring.Base.{length, Text, ℕ, ◌<◌, ◌≡◌, List, ◌∷◌}
use monitoring.Sse.Broker.{
  Event, serving, Broker, register_cap, unregister_cap, publish, heartbeat_event, on_register,
  on_unregister, on_broadcast, connect, leave, take_event,
}

module _ (id_of : ℕ → Text) where
  pub data Step (b : Broker) (c : Broker) : Type 0 where
    registers :
        (h : ℕ) (rest : List ℕ)
        → b.register ≡ h ∷ rest
        → c ≡ on_register id_of h (record b { register = rest })
        → Step b c
    unregisters :
        (h : ℕ) (rest : List ℕ)
        → b.unregister ≡ h ∷ rest
        → c ≡ on_unregister id_of h (record b { unregister = rest })
        → Step b c
    broadcasts :
        (evt : Event) (rest : List Event)
        → b.broadcast ≡ evt ∷ rest
        → c ≡ on_broadcast evt (record b { broadcast = rest })
        → Step b c
    beats : c ≡ publish heartbeat_event b → Step b c
    publishes : (evt : Event) → c ≡ publish evt b → Step b c
    connects : length b.register < register_cap → c ≡ connect b → Step b c
    leaves :
        (h : ℕ)
        → b.phase h ≡ serving
        → length b.unregister < unregister_cap
        → c ≡ leave h b
        → Step b c
    receives :
        (h : ℕ) (evt : Event) (rest : List Event)
        → b.phase h ≡ serving
        → (b.sends h).queue ≡ evt ∷ rest
        → c ≡ take_event h rest b
        → Step b c

  pub data Reach (b : Broker) : Broker → Type 0 where
    here : Reach b b
    after : {c d : Broker} → Reach b c → Step c d → Reach b d
