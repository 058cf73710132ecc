-- ===== src/Sse/Leak.antt =====
-- The order of the channels `register` and `unregister` of internal/sse/broker.go, which `select` does
-- not keep.
use monitoring.Base.{
  ltb, Bool-cases, is_some, length, All, All-append, lookup, insert, lookup-insert, lookup-delete,
  Text, text_discrete, ℕ, ◌<◌, ◌≡◌, refl, sym, ap, subst, ◌∙◌, ◌≢◌, inl, inr, some, List, [], ◌∷◌,
  arith, ℕ_discrete,
}
use monitoring.Sse.Broker.{
  Event, gone, Broker, broadcast_cap, new_broker, publish, heartbeat_event, on_register,
  on_unregister, on_broadcast, connect, leave, take_event,
}
use monitoring.Sse.Fanout.{fan_out-eq}
use monitoring.Sse.Steps.{
  Step, registers, unregisters, broadcasts, beats, publishes, connects, leaves, receives, Reach,
  here, after,
}

module _ (id_of : ℕ → Text) where
  -- A client in the map that has left, and that no message will take out.
  pub record IsLeaked (h : ℕ) (b : Broker) : Type 0 where
    pub filed : lookup text_discrete (id_of h) b.clients ≡ some h
    pub left : b.phase h ≡ gone
    pub old : h < b.next
    pub unasked : All (λ (j : ℕ). j ≢ h) b.unregister

  raced : Broker
  raced = record (leave 0 (connect new_broker)) {
    clients = (id_of 0, 0) ∷ [];
    register = [];
    unregister = [];
  }

  Reach-raced : Reach id_of new_broker raced
  unfolding raced leave connect new_broker on_unregister on_register lookup insert ℕ_discrete
  Reach-raced =
      after
        (after (after (after here (connects (omega arith) refl)) (leaves 0 refl (omega arith) refl))
          (unregisters 0 [] refl refl))
        (registers 0 [] refl refl)

  raced-IsLeaked : IsLeaked 0 raced
  unfolding raced leave connect new_broker lookup ℕ_discrete
  raced-IsLeaked = record { filed = ground arith; left = refl; old = omega arith; unasked = tt }

  module _ (distinct : (i j : ℕ) → id_of i ≡ id_of j → i ≡ j) (h : ℕ) where
    on_unregister-IsLeaked :
        (j : ℕ) (rest : List ℕ) (b : Broker)
        → b.unregister ≡ j ∷ rest
        → IsLeaked h b
        → IsLeaked h (on_unregister id_of j (record b { unregister = rest }))
    unfolding on_unregister
    on_unregister-IsLeaked j rest b e k =
        let unasked = subst (All (λ (i : ℕ). i ≢ h)) e k.unasked in
        elim (Bool-cases (is_some (lookup text_discrete (id_of j) b.clients))) [
          | inl held ↦ rw held (record {
            filed = ground (
              arith,
              lookup-delete text_discrete (id_of j) (id_of h) b.clients,
              distinct j h,
              unasked.0,
              k.filed,
            );
            left = k.left;
            old = k.old;
            unasked = unasked.1;
          })
          | inr absent ↦
              rw absent
                (record { filed = k.filed; left = k.left; old = k.old; unasked = unasked.1 })
        ]

    publish-IsLeaked : (evt : Event) (b : Broker) → IsLeaked h b → IsLeaked h (publish evt b)
    unfolding publish
    publish-IsLeaked evt b k = elim (Bool-cases (ltb (length b.broadcast) broadcast_cap)) [
      | inl e ↦ rw e (record { filed = k.filed; left = k.left; old = k.old; unasked = k.unasked })
      | inr e ↦ rw e k
    ]

    Step-IsLeaked : {b c : Broker} → Step id_of b c → IsLeaked h b → IsLeaked h c
    unfolding on_register on_broadcast connect leave take_event
    Step-IsLeaked {b} (registers j rest e to) k = subst (IsLeaked h) (sym to) (record {
      filed = ground (
        arith,
        lookup-insert text_discrete (id_of j) (id_of h) j b.clients,
        distinct j h,
        k.filed,
      );
      left = k.left;
      old = k.old;
      unasked = k.unasked;
    })
    Step-IsLeaked {b} (unregisters j rest e to) k =
        subst (IsLeaked h) (sym to) (on_unregister-IsLeaked j rest b e k)
    Step-IsLeaked {b} (broadcasts evt rest e to) k =
        subst (IsLeaked h) (sym (to ∙ fan_out-eq evt b.clients (record b { broadcast = rest })))
          (record { filed = k.filed; left = k.left; old = k.old; unasked = k.unasked })
    Step-IsLeaked {b} (beats to) k =
        subst (IsLeaked h) (sym to) (publish-IsLeaked heartbeat_event b k)
    Step-IsLeaked {b} (publishes evt to) k = subst (IsLeaked h) (sym to) (publish-IsLeaked evt b k)
    Step-IsLeaked {b} (connects room to) k = subst (IsLeaked h) (sym to) (record {
      filed = k.filed;
      left = ground (arith, k.left, k.old);
      old = ground (arith, k.old);
      unasked = k.unasked;
    })
    Step-IsLeaked {b} (leaves j serves room to) k = subst (IsLeaked h) (sym to) (record {
      filed = k.filed;
      left = ground (arith, k.left);
      old = k.old;
      unasked =
          All-append _ b.unregister (j ∷ []) k.unasked
            ((λ same. cc (sym serves ∙ ap b.phase same ∙ k.left)), tt);
    })
    Step-IsLeaked {b} (receives j evt rest serves e to) k =
        subst (IsLeaked h) (sym to)
          (record { filed = k.filed; left = k.left; old = k.old; unasked = k.unasked })

    pub Reach-IsLeaked : {b c : Broker} → Reach id_of b c → IsLeaked h b → IsLeaked h c
    Reach-IsLeaked here k = k
    Reach-IsLeaked (after r st) k = Step-IsLeaked st (Reach-IsLeaked r k)

  -- If no two connections draw the same id, a state can be reached in which the first connection
  -- has ended, and from which every state that can be reached still has that connection among the
  -- registered clients: its entry is never removed.
  pub leak :
      ((i j : ℕ) → id_of i ≡ id_of j → i ≡ j)
      → (b : Broker) × Reach id_of new_broker b
        × (b.phase 0 ≡ gone)
        × ((c : Broker) → Reach id_of b c → lookup text_discrete (id_of 0) c.clients ≡ some 0)
  leak distinct = (
    raced,
    Reach-raced,
    raced-IsLeaked.left,
    λ c r. (Reach-IsLeaked distinct 0 r raced-IsLeaked).filed,
  )
