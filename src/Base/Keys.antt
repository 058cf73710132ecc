-- ===== src/Base/Keys.antt =====
-- The keys of an association list that stands for a Go map: no two entries have the same one.
use mathlib.Core.Path.{◌≡◌, sym, ap, subst}
use mathlib.Core.Logic.{◌≢◌, if_pos, if_neg}
use mathlib.Core.Option.{some}
use mathlib.Core.List.{List, [], ◌∷◌, Memᴰ}
use monitoring.Base.Lists.{All, Apart, All-mem}
use monitoring.Base.Map.{lookup, insert, delete}

abbrev pub HasApartKeys : {K V : Type 0} → List (K × V) → Type 0
HasApartKeys {K} {V} m = Apart (λ (x : K × V). x.0) m

abbrev Without : {K V : Type 0} → K → List (K × V) → Type 0
Without {K} {V} j m = All (λ (y : K × V). j ≢ y.0) m

module _ {K V : Type 0} (eq? : Discrete K) where
  Without-insert :
      (j k : K) (v : V) (m : List (K × V)) → j ≢ k → Without j m → Without j (insert eq? k v m)
  unfolding insert
  Without-insert j k v [] ne h = (ne, tt)
  Without-insert j k v ((i, w) ∷ m) ne h = elim (eq? i k) [
    | yes e ↦ rw (if_pos (eq? i k) e) (ne, h.1)
    | no n ↦ rw (if_neg (eq? i k) n) (h.0, Without-insert j k v m ne h.1)
  ]

  pub insert-HasApartKeys :
      (k : K) (v : V) (m : List (K × V)) → HasApartKeys m → HasApartKeys (insert eq? k v m)
  unfolding insert
  insert-HasApartKeys k v [] h = (tt, tt)
  insert-HasApartKeys k v ((i, w) ∷ m) h = elim (eq? i k) [
    | yes e ↦ rw (if_pos (eq? i k) e) (subst (λ j. Without j m) e h.0, h.1)
    | no n ↦ rw (if_neg (eq? i k) n) (Without-insert i k v m n h.0, insert-HasApartKeys k v m h.1)
  ]

  Without-delete : (j k : K) (m : List (K × V)) → Without j m → Without j (delete eq? k m)
  unfolding delete
  Without-delete j k [] h = tt
  Without-delete j k ((i, w) ∷ m) h = elim (eq? i k) [
    | yes e ↦ rw (if_pos (eq? i k) e) (Without-delete j k m h.1)
    | no n ↦ rw (if_neg (eq? i k) n) (h.0, Without-delete j k m h.1)
  ]

  pub delete-HasApartKeys :
      (k : K) (m : List (K × V)) → HasApartKeys m → HasApartKeys (delete eq? k m)
  unfolding delete
  delete-HasApartKeys k [] h = tt
  delete-HasApartKeys k ((i, w) ∷ m) h = elim (eq? i k) [
    | yes e ↦ rw (if_pos (eq? i k) e) (delete-HasApartKeys k m h.1)
    | no n ↦ rw (if_neg (eq? i k) n) (Without-delete i k m h.0, delete-HasApartKeys k m h.1)
  ]

  pub lookup-mem :
      (k : K) (v : V) (m : List (K × V)) → HasApartKeys m → Memᴰ (k, v) m → lookup eq? k m ≡ some v
  unfolding lookup
  lookup-mem k v [] h held = elim held [ ]
  lookup-mem k v ((i, w) ∷ m) h (Memᴰ.head e) =
      rw (if_pos (eq? i k) (sym (ap (λ x. x.0) e))) (ap some (sym (ap (λ x. x.1) e)))
  lookup-mem k v ((i, w) ∷ m) h (Memᴰ.tail held) =
      let ne = All-mem (λ (y : K × V). i ≢ y.0) m held h.0 in
      rw (if_neg (eq? i k) ne) (lookup-mem k v m h.1 held)
