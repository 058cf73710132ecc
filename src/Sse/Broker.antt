-- ===== src/Sse/Broker.antt =====
-- internal/sse/broker.go: the broker's state and what `Run`, `Broadcast` and `ServeHTTP` do to it.
-- A `*client` is a handle, the number of its connection; `id_of` is what `newID` drew for it. A
-- channel is the list of what it buffers, oldest first; a panic is a field of the state.
use monitoring.Base.{
  ltb, if◌then◌else◌, is_some, length, lookup, insert, delete, Text, bytes, text_discrete, ℕ, suc,
  ite, Bool, true, false, ◌||◌, List, [], ◌∷◌, ◌++◌, ℕ_discrete,
}

pub record Event : Type 0 where
  pub type : Text
  pub payload : Text

-- The channel `client.send`.
pub record Channel : Type 0 where
  pub queue : List Event
  pub closed : Bool

pub data Phase : Type 0 where
  unborn serving gone : Phase

pub record Broker : Type 0 where
  pub clients : List (Text × ℕ)
  pub broadcast : List Event
  pub register : List ℕ
  pub unregister : List ℕ
  pub sends : ℕ → Channel
  pub phase : ℕ → Phase
  pub next : ℕ
  pub panicked : Bool

abbrev pub send_cap : ℕ
send_cap = 64

abbrev pub broadcast_cap : ℕ
broadcast_cap = 256

abbrev pub register_cap : ℕ
register_cap = 16

abbrev pub unregister_cap : ℕ
unregister_cap = 16

abbrev pub new_channel : Channel
new_channel = record { queue = []; closed = false }

unfoldable pub new_broker : Broker
new_broker = record {
  clients = [];
  broadcast = [];
  register = [];
  unregister = [];
  sends = λ h. new_channel;
  phase = λ h. unborn;
  next = 0;
  panicked = false;
}

abbrev pub update {ℓ} : {A : Type ℓ} → (ℕ → A) → ℕ → A → ℕ → A
update f h a k = ite (ℕ_discrete h k) a (f k)

-- `Broadcast`: an event that finds the buffer full is dropped.
unfoldable pub publish : Event → Broker → Broker
publish evt b =
    if ltb (length b.broadcast) broadcast_cap
    then record b { broadcast = b.broadcast ++ evt ∷ [] }
    else b

abbrev pub heartbeat_event : Event
heartbeat_event = record { type = bytes "heartbeat"; payload = bytes "{}" }

-- `select { case c.send <- evt: default: }` for one client: a send on a closed channel panics.
abbrev pub offer : Event → Channel → Channel
offer evt c = if ltb (length c.queue) send_cap then record c { queue = c.queue ++ evt ∷ [] } else c

unfoldable pub fan_out : Event → List (Text × ℕ) → Broker → Broker
fan_out evt [] b = b
fan_out evt ((k, h) ∷ rest) b = fan_out evt rest (record b {
  sends = if (b.sends h).closed then b.sends else update b.sends h (offer evt (b.sends h));
  panicked = (b.sends h).closed || b.panicked;
})

-- The cases of the `select` in `Run`, once a value was received.
unfoldable pub on_register : (ℕ → Text) → ℕ → Broker → Broker
on_register id_of h b = record b { clients = insert text_discrete (id_of h) h b.clients }

-- `close(c.send)`: closing a closed channel panics.
abbrev pub close_send : ℕ → Broker → Broker
close_send h b = record b {
  sends = update b.sends h (record (b.sends h) { closed = true });
  panicked = (b.sends h).closed || b.panicked;
}

unfoldable pub on_unregister : (ℕ → Text) → ℕ → Broker → Broker
on_unregister id_of h b =
    if is_some (lookup text_discrete (id_of h) b.clients)
    then close_send h (record b { clients = delete text_discrete (id_of h) b.clients })
    else b

unfoldable pub on_broadcast : Event → Broker → Broker
unfolding fan_out
on_broadcast evt b = fan_out evt b.clients b

-- `ClientCount`
unfoldable pub client_count : Broker → ℕ
client_count b = length b.clients

-- `ServeHTTP`: a new client is sent to the channel `register`, and its loop begins.
unfoldable pub connect : Broker → Broker
connect b = record b {
  register = b.register ++ b.next ∷ [];
  phase = update b.phase b.next serving;
  sends = update b.sends b.next new_channel;
  next = suc b.next;
}

-- Its loop ends, and the deferred send to the channel `unregister` is made.
unfoldable pub leave : ℕ → Broker → Broker
leave h b = record b { unregister = b.unregister ++ h ∷ []; phase = update b.phase h gone }

-- Its loop takes an event off `c.send` and writes it out.
unfoldable pub take_event : ℕ → List Event → Broker → Broker
take_event h rest b = record b { sends = update b.sends h (record (b.sends h) { queue = rest }) }
