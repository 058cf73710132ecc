-- ===== src/Sse/Fanout.antt =====
-- `case evt := <-b.broadcast` of internal/sse/broker.go: who gets the event.
use mathlib.Core.List.{Memᴰ}
use monitoring.Base.{
  if◌then◌else◌, All, Apart, All-imp, All-mem, Text, ℕ, ◌≡◌, refl, sym, ap, ◌∙◌, ◌≢◌, false, ◌||◌,
  List, [], ◌∷◌, arith,
}
use monitoring.Sse.Broker.{Event, Broker, update, offer, fan_out}

abbrev pub Entry : Type 0
Entry = Text × ℕ

abbrev pub IsOpen : Broker → ℕ → Type 0
IsOpen b h = (b.sends h).closed ≡ false

-- Every client of the map waits on a channel that is open.
abbrev pub AllOpen : Broker → List Entry → Type 0
AllOpen b = All (λ (x : Entry). IsOpen b x.1)

-- One client's part of the loop.
abbrev offered : Event → ℕ → Broker → Broker
offered evt h b = record b {
  sends = if (b.sends h).closed then b.sends else update b.sends h (offer evt (b.sends h));
  panicked = (b.sends h).closed || b.panicked;
}

closed-offered :
    (evt : Event) (h j : ℕ) (b : Broker) → ((offered evt h b).sends j).closed ≡ (b.sends j).closed
closed-offered evt h j b = ground arith

-- The loop opens and closes no channel.
pub closed-fan_out :
    (evt : Event) (xs : List Entry) (b : Broker) (j : ℕ)
    → ((fan_out evt xs b).sends j).closed ≡ (b.sends j).closed
unfolding fan_out
closed-fan_out evt [] b j = refl
closed-fan_out evt ((k, h) ∷ rest) b j =
    closed-fan_out evt rest (offered evt h b) j ∙ closed-offered evt h j b

AllOpen-offered :
    (evt : Event) (h : ℕ) (xs : List Entry) (b : Broker)
    → AllOpen b xs
    → AllOpen (offered evt h b) xs
AllOpen-offered evt h xs b o = All-imp _ _ xs (λ x c. closed-offered evt h x.1 b ∙ c) o

-- With every channel open the loop does not panic.
pub panicked-fan_out :
    (evt : Event) (xs : List Entry) (b : Broker)
    → AllOpen b xs
    → (fan_out evt xs b).panicked ≡ b.panicked
unfolding fan_out
panicked-fan_out evt [] b o = refl
panicked-fan_out evt ((k, h) ∷ rest) b o =
    panicked-fan_out evt rest (offered evt h b) (AllOpen-offered evt h rest b o.1) ∙ ground arith

-- What the loop changes.
pub fan_out-eq :
    (evt : Event) (xs : List Entry) (b : Broker)
    → let c = fan_out evt xs b in c ≡ record b { sends = c.sends; panicked = c.panicked }
unfolding fan_out
fan_out-eq evt [] b = refl
fan_out-eq evt ((k, h) ∷ rest) b = fan_out-eq evt rest (offered evt h b)

pub sends-fan_out_absent :
    (evt : Event) (xs : List Entry) (b : Broker) (j : ℕ)
    → All (λ (x : Entry). x.1 ≢ j) xs
    → (fan_out evt xs b).sends j ≡ b.sends j
unfolding fan_out
sends-fan_out_absent evt [] b j h = refl
sends-fan_out_absent evt ((k, h) ∷ rest) b j apart =
    sends-fan_out_absent evt rest (offered evt h b) j apart.1 ∙ ground arith

sends-offered_other :
    (evt : Event) (h j : ℕ) (b : Broker) → h ≢ j → (offered evt h b).sends j ≡ b.sends j
sends-offered_other evt h j b other = ground arith

sends-offered_self :
    (evt : Event) (h : ℕ) (b : Broker)
    → IsOpen b h
    → (offered evt h b).sends h ≡ offer evt (b.sends h)
sends-offered_self evt h b o = ground arith

-- A client of the map is offered the event once.
pub sends-fan_out :
    (evt : Event) (xs : List Entry) (b : Broker) {x : Entry}
    → Apart (λ (y : Entry). y.1) xs
    → AllOpen b xs
    → Memᴰ x xs
    → (fan_out evt xs b).sends x.1 ≡ offer evt (b.sends x.1)
unfolding fan_out
sends-fan_out evt [] b apart o m = elim m [ ]
sends-fan_out evt ((k, h) ∷ rest) b {x} apart o (Memᴰ.head e) =
    let same : x.1 ≡ h = ap (λ y. y.1) e in
    rw same (
      sends-fan_out_absent evt rest (offered evt h b) h
        (All-imp _ _ rest (λ y ne e'. ne (sym e')) apart.0)
      ∙ sends-offered_self evt h b o.0)
sends-fan_out evt ((k, h) ∷ rest) b {x} apart o (Memᴰ.tail m) =
    let other = sends-offered_other evt h x.1 b (All-mem (λ (y : Entry). h ≢ y.1) rest m apart.0) in
    sends-fan_out evt rest (offered evt h b) apart.1 (AllOpen-offered evt h rest b o.1) m
    ∙ ap (offer evt) other
