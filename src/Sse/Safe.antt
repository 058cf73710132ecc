-- ===== src/Sse/Safe.antt =====
-- The invariant against the two panics of a Go channel in internal/sse/broker.go, a send on a closed
-- channel and a second close; `Broadcast` and a client that takes an event.
use monitoring.Base.{
  ltb, Bool-cases, length, All, Apart, All-imp, lookup, Text, text_discrete, ℕ, ◌<◌, ◌≡◌, refl, ◌∙◌,
  inl, inr, false, none, List, arith,
}
use monitoring.Sse.Broker.{
  Event, Channel, Phase, serving, gone, Broker, broadcast_cap, new_broker, publish, take_event,
}
use monitoring.Sse.Fanout.{Entry}

abbrev pub Sends : Type 0
Sends = ℕ → Channel

module _ (id_of : ℕ → Text) where
  -- An entry of the map: its client is filed under its own id, and its channel is open.
  pub record IsMember (sends : ℕ → Channel) (bound : ℕ) (x : Entry) : Type 0 where
    pub key : x.0 ≡ id_of x.1
    pub opened : (sends x.1).closed ≡ false
    pub old : x.1 < bound

  -- A client that waits in the channel `register` is not in the map yet.
  pub record IsPending (sends : ℕ → Channel) (bound : ℕ) (clients : List Entry) (h : ℕ)
      : Type 0 where
    pub opened : (sends h).closed ≡ false
    pub old : h < bound
    pub absent : lookup text_discrete (id_of h) clients ≡ none

  -- A client that waits in the channel `unregister` was not closed yet.
  pub record IsLeaving (sends : ℕ → Channel) (phase : ℕ → Phase) (bound : ℕ) (h : ℕ) : Type 0 where
    pub opened : (sends h).closed ≡ false
    pub left : phase h ≡ gone
    pub old : h < bound

  pub record IsSafe (b : Broker) : Type 0 where
    pub members : All (IsMember b.sends b.next) b.clients
    pub pending : All (IsPending b.sends b.next b.clients) b.register
    pub pending_once : Apart (λ (h : ℕ). h) b.register
    pub leaving : All (IsLeaving b.sends b.phase b.next) b.unregister
    pub leaving_once : Apart (λ (h : ℕ). h) b.unregister
    pub serving_open : (h : ℕ) → b.phase h ≡ serving → ((b.sends h).closed ≡ false) × (h < b.next)
    pub calm : b.panicked ≡ false

  pub new_broker-IsSafe : IsSafe new_broker
  unfolding new_broker
  new_broker-IsSafe = record {
    members = tt;
    pending = tt;
    pending_once = tt;
    leaving = tt;
    leaving_once = tt;
    serving_open = λ h e. cc;
    calm = refl;
  }

  pub publish-IsSafe : (evt : Event) (b : Broker) → IsSafe b → IsSafe (publish evt b)
  unfolding publish
  publish-IsSafe evt b s = elim (Bool-cases (ltb (length b.broadcast) broadcast_cap)) [
    | inl e ↦ rw e (record {
      members = s.members;
      pending = s.pending;
      pending_once = s.pending_once;
      leaving = s.leaving;
      leaving_once = s.leaving_once;
      serving_open = s.serving_open;
      calm = s.calm;
    })
    | inr e ↦ rw e s
  ]

  -- A change of the queues that opens and closes no channel.
  pub IsSafe-sends :
      (b : Broker) (sends : Sends)
      → ((h : ℕ) → (sends h).closed ≡ (b.sends h).closed)
      → IsSafe b
      → IsSafe (record b { sends = sends })
  IsSafe-sends b sends same s = record {
    members =
        All-imp _ _ b.clients
          (λ x m. record { key = m.key; opened = same x.1 ∙ m.opened; old = m.old }) s.members;
    pending =
        All-imp _ _ b.register
          (λ h p. record { opened = same h ∙ p.opened; old = p.old; absent = p.absent }) s.pending;
    pending_once = s.pending_once;
    leaving =
        All-imp _ _ b.unregister
          (λ h l. record { opened = same h ∙ l.opened; left = l.left; old = l.old }) s.leaving;
    leaving_once = s.leaving_once;
    serving_open = λ h e. (same h ∙ (s.serving_open h e).0, (s.serving_open h e).1);
    calm = s.calm;
  }

  pub take_event-IsSafe :
      (h : ℕ) (rest : List Event) (b : Broker) → IsSafe b → IsSafe (take_event h rest b)
  unfolding take_event
  take_event-IsSafe h rest b s = IsSafe-sends b _ (λ j. ground arith) s
