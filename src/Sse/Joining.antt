-- ===== src/Sse/Joining.antt =====
-- A connection of internal/sse/broker.go begins, is registered, and ends. The ids that `newID` draws
-- are taken to differ.
use monitoring.Base.{
  All, All-append, Apart, All-imp, Apart-append, All-imp₂, lookup, insert, lookup-insert, Text,
  text_discrete, ℕ, ◌≤◌, ◌≡◌, refl, ap, subst, if_pos, if_neg, none, List, [], ◌∷◌, arith,
}
use monitoring.Sse.Broker.{serving, Broker, on_register, connect, leave}
use monitoring.Sse.Fanout.{Entry}
use monitoring.Sse.Safe.{Sends, IsMember, IsPending, IsSafe}

module _ (id_of : ℕ → Text) where
  lookup-absent :
      (distinct : (i j : ℕ) → id_of i ≡ id_of j → i ≡ j) (sends : Sends) (bound h : ℕ)
      (xs : List Entry)
      → bound ≤ h
      → All (IsMember id_of sends bound) xs
      → lookup text_discrete (id_of h) xs ≡ none
  unfolding lookup
  lookup-absent distinct sends bound h [] le m = refl
  lookup-absent distinct sends bound h ((k, j) ∷ xs) le m =
      ground (arith, lookup-absent distinct sends bound h xs le m.1, distinct j h)

  pub connect-IsSafe :
      (distinct : (i j : ℕ) → id_of i ≡ id_of j → i ≡ j) (b : Broker)
      → IsSafe id_of b
      → IsSafe id_of (connect b)
  unfolding connect
  connect-IsSafe distinct b s = record {
    members =
        All-imp _ _ b.clients
          (λ x m. record {
            key = m.key;
            opened = ground (arith, m.opened, m.old);
            old = ground (arith, m.old);
          })
          s.members;
    pending =
        All-append _ b.register (b.next ∷ [])
          (All-imp _ _ b.register
            (λ h p. record {
              opened = ground (arith, p.opened, p.old);
              old = ground (arith, p.old);
              absent = p.absent;
            })
            s.pending)
          (
            record {
              opened = ground arith;
              old = omega arith;
              absent =
                  lookup-absent distinct b.sends b.next b.next b.clients (omega arith) s.members;
            },
            tt,
          );
    pending_once =
        Apart-append (λ h. h) b.register (b.next ∷ []) s.pending_once (tt, tt)
          (All-imp _ _ b.register (λ h p. ((λ e. omega (arith, p.old)), tt)) s.pending);
    leaving =
        All-imp _ _ b.unregister
          (λ h l. record {
            opened = ground (arith, l.opened, l.old);
            left = ground (arith, l.left, l.old);
            old = ground (arith, l.old);
          })
          s.leaving;
    leaving_once = s.leaving_once;
    serving_open = λ h e. ground (arith, s.serving_open h);
    calm = s.calm;
  }

  pub leave-IsSafe :
      (h : ℕ) (b : Broker) → b.phase h ≡ serving → IsSafe id_of b → IsSafe id_of (leave h b)
  unfolding leave
  leave-IsSafe h b serves s = record {
    members = s.members;
    pending = s.pending;
    pending_once = s.pending_once;
    leaving =
        All-append _ b.unregister (h ∷ [])
          (All-imp _ _ b.unregister
            (λ j l. record { opened = l.opened; left = ground (arith, l.left); old = l.old })
            s.leaving)
          (
            record {
              opened = (s.serving_open h serves).0;
              left = ground arith;
              old = (s.serving_open h serves).1;
            },
            tt,
          );
    leaving_once =
        Apart-append (λ h. h) b.unregister (h ∷ []) s.leaving_once (tt, tt)
          (All-imp _ _ b.unregister (λ j l. ((λ e. cc (l.left, serves, ap b.phase e)), tt))
            s.leaving);
    serving_open = λ j e. ground (arith, s.serving_open j);
    calm = s.calm;
  }

  All-insert :
      (sends : Sends) (bound h : ℕ) (xs : List Entry)
      → IsMember id_of sends bound (id_of h, h)
      → All (IsMember id_of sends bound) xs
      → All (IsMember id_of sends bound) (insert text_discrete (id_of h) h xs)
  unfolding insert
  All-insert sends bound h [] new m = (new, tt)
  All-insert sends bound h ((k, j) ∷ xs) new m = elim (text_discrete k (id_of h)) [
    | yes same ↦ rw (if_pos _ same) (new, m.1)
    | no other ↦ rw (if_neg _ other) (m.0, All-insert sends bound h xs new m.1)
  ]

  -- The first client of the channel `register` is filed.
  pub on_register-IsSafe :
      (distinct : (i j : ℕ) → id_of i ≡ id_of j → i ≡ j) (h : ℕ) (rest : List ℕ) (b : Broker)
      → b.register ≡ h ∷ rest
      → IsSafe id_of b
      → IsSafe id_of (on_register id_of h (record b { register = rest }))
  unfolding on_register
  on_register-IsSafe distinct h rest b e s =
      let pending = subst (All (IsPending id_of b.sends b.next b.clients)) e s.pending in
      let once = subst (Apart (λ (j : ℕ). j)) e s.pending_once in
      record {
        members =
            All-insert b.sends b.next h b.clients
              (record { key = refl; opened = pending.0.opened; old = pending.0.old }) s.members;
        pending =
            All-imp₂ _ _ _ rest
              (λ j p ne. record {
                opened = p.opened;
                old = p.old;
                absent = ground (
                  arith,
                  lookup-insert text_discrete (id_of h) (id_of j) h b.clients,
                  distinct h j,
                  p.absent,
                );
              })
              pending.1 once.0;
        pending_once = once.1;
        leaving = s.leaving;
        leaving_once = s.leaving_once;
        serving_open = s.serving_open;
        calm = s.calm;
      }
