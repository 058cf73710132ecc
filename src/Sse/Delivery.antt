-- ===== src/Sse/Delivery.antt =====
-- A broadcast of internal/sse/broker.go in the states that the broker can reach.
use mathlib.Core.List.{Memᴰ}
use monitoring.Base.{
  Bool-cases, is_some, All, Apart, All-imp, Apart-append, lookup, insert, delete, Text,
  text_discrete, ℕ, ◌≡◌, refl, sym, ap, subst, ◌∙◌, ◌≢◌, inl, inr, if_pos, if_neg, none, List, [],
  ◌∷◌, ◌++◌, arith,
}
use monitoring.Sse.Broker.{
  Event, Channel, Broker, new_broker, publish, offer, on_register, on_unregister, on_broadcast,
  connect, leave, take_event,
}
use monitoring.Sse.Fanout.{Entry, fan_out-eq, sends-fan_out_absent, sends-fan_out}
use monitoring.Sse.Steps.{
  Step, registers, unregisters, broadcasts, beats, publishes, connects, leaves, receives, Reach,
  here, after,
}
use monitoring.Sse.Safe.{IsMember, IsPending, IsSafe}
use monitoring.Sse.Safety.{Reach-IsSafe}

abbrev handle : Entry → ℕ
handle x = x.1

module _ (id_of : ℕ → Text) where
  -- The id of a client that is not in the map is filed behind the others.
  insert-absent :
      (h : ℕ) (xs : List Entry)
      → lookup text_discrete (id_of h) xs ≡ none
      → insert text_discrete (id_of h) h xs ≡ xs ++ (id_of h, h) ∷ []
  unfolding lookup insert
  insert-absent h [] e = refl
  insert-absent h ((k, j) ∷ xs) e = ground (arith, insert-absent h xs)

  not-handle :
      (sends : ℕ → Channel) (bound h : ℕ) (xs : List Entry)
      → lookup text_discrete (id_of h) xs ≡ none
      → All (IsMember id_of sends bound) xs
      → All (λ (x : Entry). x.1 ≢ h) xs
  unfolding lookup
  not-handle sends bound h [] e m = tt
  not-handle sends bound h ((k, j) ∷ xs) e m = elim (text_discrete k (id_of h)) [
    | yes same ↦ absurd (ground (arith, e))
    | no other ↦ (
      (λ alike. other (m.0.key ∙ ap id_of alike)),
      not-handle sends bound h xs (ground (arith, e)) m.1,
    )
  ]

All-delete_sub :
    (P : Entry → Type 0) (k : Text) (xs : List Entry) → All P xs → All P (delete text_discrete k xs)
unfolding delete
All-delete_sub P k [] a = tt
All-delete_sub P k ((i, j) ∷ xs) a = elim (text_discrete i k) [
  | yes same ↦ rw (if_pos _ same) (All-delete_sub P k xs a.1)
  | no other ↦ rw (if_neg _ other) (a.0, All-delete_sub P k xs a.1)
]

Apart-delete :
    (k : Text) (xs : List Entry) → Apart handle xs → Apart handle (delete text_discrete k xs)
unfolding delete
Apart-delete k [] a = tt
Apart-delete k ((i, j) ∷ xs) a = elim (text_discrete i k) [
  | yes same ↦ rw (if_pos _ same) (Apart-delete k xs a.1)
  | no other ↦ rw (if_neg _ other) (All-delete_sub _ k xs a.0, Apart-delete k xs a.1)
]

module _ (id_of : ℕ → Text) (distinct : (i j : ℕ) → id_of i ≡ id_of j → i ≡ j) where
  on_unregister-Apart :
      (h : ℕ) (b : Broker) → Apart handle b.clients → Apart handle (on_unregister id_of h b).clients
  unfolding on_unregister
  on_unregister-Apart h b a =
      elim (Bool-cases (is_some (lookup text_discrete (id_of h) b.clients))) [
        | inl e ↦ rw e (Apart-delete (id_of h) b.clients a)
        | inr e ↦ rw e a
      ]

  Step-Apart :
      {b c : Broker}
      → Step id_of b c
      → IsSafe id_of b
      → Apart handle b.clients
      → Apart handle c.clients
  unfolding on_register on_broadcast connect leave take_event publish
  Step-Apart {b} (registers h rest e to) s a =
      let pending = subst (All (IsPending id_of b.sends b.next b.clients)) e s.pending in
      subst (λ c. Apart handle c.clients) (sym to)
        (rw (insert-absent id_of h b.clients pending.0.absent) (
          Apart-append handle b.clients ((id_of h, h) ∷ []) a (tt, tt)
            (All-imp _ _ b.clients (λ x ne. (ne, tt))
              (not-handle id_of b.sends b.next h b.clients pending.0.absent s.members))))
  Step-Apart {b} (unregisters h rest e to) s a =
      subst (λ c. Apart handle c.clients) (sym to) (on_unregister-Apart h _ a)
  Step-Apart {b} (broadcasts evt rest e to) s a =
      subst (λ c. Apart handle c.clients)
        (sym (to ∙ fan_out-eq evt b.clients (record b { broadcast = rest }))) a
  Step-Apart {b} (beats to) s a = subst (λ c. Apart handle c.clients) (sym to) (ground arith)
  Step-Apart {b} (publishes evt to) s a =
      subst (λ c. Apart handle c.clients) (sym to) (ground arith)
  Step-Apart {b} (connects room to) s a = subst (λ c. Apart handle c.clients) (sym to) a
  Step-Apart {b} (leaves h serves room to) s a = subst (λ c. Apart handle c.clients) (sym to) a
  Step-Apart {b} (receives h evt rest serves e to) s a =
      subst (λ c. Apart handle c.clients) (sym to) a

  Reach-Apart : {b : Broker} → Reach id_of new_broker b → Apart handle b.clients
  unfolding new_broker
  Reach-Apart here = tt
  Reach-Apart (after r st) = Step-Apart st (Reach-IsSafe id_of distinct r) (Reach-Apart r)

  -- If no two connections draw the same id, then in every reachable state a broadcast offers its
  -- event once to every registered client, which takes it unless its buffer is full, and leaves
  -- the channels of all others as they are.
  pub delivery :
      (b : Broker) (evt : Event)
      → Reach id_of new_broker b
      → ((x : Entry) → Memᴰ x b.clients → (on_broadcast evt b).sends x.1 ≡ offer evt (b.sends x.1))
        × ((j : ℕ)
            → All (λ (x : Entry). x.1 ≢ j) b.clients
            → (on_broadcast evt b).sends j ≡ b.sends j)
  unfolding on_broadcast
  delivery b evt r =
      let open_all =
        All-imp _ _ b.clients (λ x m. m.opened) (Reach-IsSafe id_of distinct r).members in
      (
        (λ x held. sends-fan_out evt b.clients b (Reach-Apart r) open_all held),
        (λ j absent. sends-fan_out_absent evt b.clients b j absent),
      )
