-- ===== src/Sse/Closing.antt =====
-- `Run` of internal/sse/broker.go closes the channel of a client that is unregistered, and sends an
-- event to the clients that are registered.
use monitoring.Base.{
  Bool-cases, is_some, All, Apart, All-imp, All-imp₂, lookup, delete, lookup-delete, Text,
  text_discrete, ℕ, ◌≡◌, refl, sym, ap, subst, ◌∙◌, ◌≢◌, inl, inr, if_pos, if_neg, true, false,
  Option, none, List, [], ◌∷◌, arith,
}
use monitoring.Sse.Broker.{Event, Broker, update, fan_out, close_send, on_unregister, on_broadcast}
use monitoring.Sse.Fanout.{Entry, closed-fan_out, panicked-fan_out, fan_out-eq}
use monitoring.Sse.Safe.{Sends, IsMember, IsLeaving, IsSafe, IsSafe-sends}

is_some-none : (o : Option ℕ) → is_some o ≡ true → ¬ (o ≡ none)
is_some-none o h e = cc (ap is_some e)

sends-close :
    (h j : ℕ) (b : Broker)
    → h ≢ j
    → ((update b.sends h (record (b.sends h) { closed = true })) j).closed ≡ (b.sends j).closed
sends-close h j b other = ground arith

module _ (id_of : ℕ → Text) where
  All-delete :
      (sends : Sends) (bound h : ℕ) (xs : List Entry)
      → All (IsMember id_of sends bound) xs
      → All
          (λ (x : Entry). IsMember id_of sends bound x × (h ≢ x.1))
          (delete text_discrete (id_of h) xs)
  unfolding delete
  All-delete sends bound h [] m = tt
  All-delete sends bound h ((k, j) ∷ xs) m = elim (text_discrete k (id_of h)) [
    | yes same ↦ rw (if_pos _ same) (All-delete sends bound h xs m.1)
    | no other ↦
        rw (if_neg _ other)
          ((m.0, (λ e. other (m.0.key ∙ ap id_of (sym e)))), All-delete sends bound h xs m.1)
  ]

  -- The channel that is closed is in no other place.
  close-IsSafe :
      (h : ℕ) (b : Broker) (held : Option ℕ)
      → lookup text_discrete (id_of h) b.clients ≡ held
      → is_some held ≡ true
      → IsLeaving id_of b.sends b.phase b.next h
      → All (λ j. h ≢ j) b.unregister
      → IsSafe id_of b
      → IsSafe id_of
          (close_send h (record b { clients = delete text_discrete (id_of h) b.clients }))
  close-IsSafe h b held found some_held l apart s = record {
    members =
        All-imp _ _ (delete text_discrete (id_of h) b.clients)
          (λ x m. record {
            key = m.0.key;
            opened = sends-close h x.1 b m.1 ∙ m.0.opened;
            old = m.0.old;
          })
          (All-delete b.sends b.next h b.clients s.members);
    pending =
        All-imp _ _ b.register
          (λ j p. record {
            opened =
                sends-close h j b (λ e.
                  is_some-none held some_held
                    (sym found ∙ ap (λ i. lookup text_discrete (id_of i) b.clients) e ∙ p.absent))
                ∙ p.opened;
            old = p.old;
            absent =
                ground (arith, lookup-delete text_discrete (id_of h) (id_of j) b.clients, p.absent);
          })
          s.pending;
    pending_once = s.pending_once;
    leaving =
        All-imp₂ _ _ _ b.unregister
          (λ j k ne. record {
            opened = sends-close h j b ne ∙ k.opened;
            left = k.left;
            old = k.old;
          })
          s.leaving apart;
    leaving_once = s.leaving_once;
    serving_open = λ j e. (
      sends-close h j b (λ same. cc (sym l.left ∙ ap b.phase same ∙ e)) ∙ (s.serving_open j e).0,
      (s.serving_open j e).1,
    );
    calm = ground (arith, l.opened, s.calm);
  }

  -- The first client of the channel `unregister` is taken out of the map, if it is in it.
  pub on_unregister-IsSafe :
      (h : ℕ) (rest : List ℕ) (b : Broker)
      → b.unregister ≡ h ∷ rest
      → IsSafe id_of b
      → IsSafe id_of (on_unregister id_of h (record b { unregister = rest }))
  unfolding on_unregister
  on_unregister-IsSafe h rest b e s =
      let leaving = subst (All (IsLeaving id_of b.sends b.phase b.next)) e s.leaving in
      let once = subst (Apart (λ (j : ℕ). j)) e s.leaving_once in
      let s' : IsSafe id_of (record b { unregister = rest }) = record {
        members = s.members;
        pending = s.pending;
        pending_once = s.pending_once;
        leaving = leaving.1;
        leaving_once = once.1;
        serving_open = s.serving_open;
        calm = s.calm;
      } in
      elim (Bool-cases (is_some (lookup text_discrete (id_of h) b.clients))) [
        | inl held ↦ rw held (
            close-IsSafe h (record b { unregister = rest })
              (lookup text_discrete (id_of h) b.clients) refl held leaving.0 once.0 s')
        | inr absent ↦ rw absent s'
      ]

  AllOpen-members :
      (sends : Sends) (bound : ℕ) (xs : List Entry)
      → All (IsMember id_of sends bound) xs
      → All (λ (x : Entry). (sends x.1).closed ≡ false) xs
  AllOpen-members sends bound xs m = All-imp _ _ xs (λ x k. k.opened) m

  pub on_broadcast-IsSafe :
      (evt : Event) (b : Broker) → IsSafe id_of b → IsSafe id_of (on_broadcast evt b)
  unfolding on_broadcast
  on_broadcast-IsSafe evt b s =
      let c = fan_out evt b.clients b in
      let calm =
        panicked-fan_out evt b.clients b (AllOpen-members b.sends b.next b.clients s.members) in
      subst (IsSafe id_of)
        (sym
          (fan_out-eq evt b.clients b ∙ ap (λ q. record b { sends = c.sends; panicked = q }) calm))
        (IsSafe-sends id_of b c.sends (closed-fan_out evt b.clients b) s)
