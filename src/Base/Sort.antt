-- ===== src/Base/Sort.antt =====
-- `ORDER BY key DESC` and `ORDER BY key ASC`: SQL leaves the order of equal keys open, and this
-- sort keeps the one in which the rows stand.
use Prim.Native.Nat.{ℕ, ◌≤◌}
use mathlib.Core.Path.{sym}
use mathlib.Core.Logic.{inl, inr, ◌≢◌}
use mathlib.Core.List.{List, [], ◌∷◌, Perm}
use mathlib.Core.List.Perm
use native.Mathlib.Omega.{arith}
use monitoring.Base.Tests.{leb, if◌then◌else◌, Bool-cases}
use monitoring.Base.Lists.{All, Apart}

module _ {A : Type 0} (key : A → ℕ) where
  unfoldable pub place_desc : A → List A → List A
  place_desc x [] = x ∷ []
  place_desc x (y ∷ ys) = if leb (key y) (key x) then x ∷ y ∷ ys else y ∷ place_desc x ys

  unfoldable pub sort_desc : List A → List A
  unfolding place_desc
  sort_desc [] = []
  sort_desc (x ∷ xs) = place_desc x (sort_desc xs)

  -- Every key is at most `n`, and the keys do not rise along the list.
  abbrev pub Falls : List A → Type 0
  Falls [] = Unit {0}
  Falls (x ∷ xs) = All (λ y. key y ≤ key x) xs × Falls xs

  place_desc-perm : (x : A) (ys : List A) → Perm (place_desc x ys) (x ∷ ys)
  unfolding place_desc
  place_desc-perm x [] = Perm.refl _
  place_desc-perm x (y ∷ ys) = elim (Bool-cases (leb (key y) (key x))) [
    | inl e ↦ rw e (Perm.refl _)
    | inr e ↦ rw e (Perm.trans (Perm.cons y (place_desc-perm x ys)) (Perm.swap x y ys))
  ]

  pub sort_desc-perm : (xs : List A) → Perm (sort_desc xs) xs
  unfolding sort_desc
  sort_desc-perm [] = Perm.refl _
  sort_desc-perm (x ∷ xs) =
      Perm.trans (place_desc-perm x (sort_desc xs)) (Perm.cons x (sort_desc-perm xs))

  All-place_desc : (P : A → Type 0) (x : A) (ys : List A) → P x → All P ys → All P (place_desc x ys)
  unfolding place_desc
  All-place_desc P x [] h hs = (h, tt)
  All-place_desc P x (y ∷ ys) h hs = elim (Bool-cases (leb (key y) (key x))) [
    | inl e ↦ rw e (h, hs)
    | inr e ↦ rw e (hs.0, All-place_desc P x ys h hs.1)
  ]

  All-le_mono : (m n : ℕ) (ys : List A) → m ≤ n → All (λ y. key y ≤ m) ys → All (λ y. key y ≤ n) ys
  All-le_mono m n [] h a = tt
  All-le_mono m n (y ∷ ys) h a = (omega arith, All-le_mono m n ys h a.1)

  place_desc-Falls : (x : A) (ys : List A) → Falls ys → Falls (place_desc x ys)
  unfolding place_desc
  place_desc-Falls x [] h = (tt, tt)
  place_desc-Falls x (y ∷ ys) h = elim (Bool-cases (leb (key y) (key x))) [
    | inl e ↦ rw e ((ground arith, All-le_mono (key y) (key x) ys (ground arith) h.0), h)
    | inr e ↦
        rw e
          (All-place_desc (λ z. key z ≤ key y) x ys (ground arith) h.0, place_desc-Falls x ys h.1)
  ]

  pub sort_desc-Falls : (xs : List A) → Falls (sort_desc xs)
  unfolding sort_desc
  sort_desc-Falls [] = tt
  sort_desc-Falls (x ∷ xs) = place_desc-Falls x (sort_desc xs) (sort_desc-Falls xs)

  Apart-place_desc :
      {K : Type 0} (id : A → K) (x : A) (ys : List A)
      → All (λ y. id x ≢ id y) ys
      → Apart id ys
      → Apart id (place_desc x ys)
  unfolding place_desc
  Apart-place_desc id x [] h a = (tt, tt)
  Apart-place_desc id x (y ∷ ys) h a = elim (Bool-cases (leb (key y) (key x))) [
    | inl e ↦ rw e (h, a)
    | inr e ↦ rw e (
      All-place_desc (λ z. id y ≢ id z) x ys (λ same. h.0 (sym same)) a.0,
      Apart-place_desc id x ys h.1 a.1,
    )
  ]

  pub All-sort_desc : (P : A → Type 0) (xs : List A) → All P xs → All P (sort_desc xs)
  unfolding sort_desc
  All-sort_desc P [] h = tt
  All-sort_desc P (x ∷ xs) h = All-place_desc P x (sort_desc xs) h.0 (All-sort_desc P xs h.1)

  pub Apart-sort_desc :
      {K : Type 0} (id : A → K) (xs : List A) → Apart id xs → Apart id (sort_desc xs)
  unfolding sort_desc
  Apart-sort_desc id [] a = tt
  Apart-sort_desc id (x ∷ xs) a =
      Apart-place_desc id x (sort_desc xs) (All-sort_desc (λ y. id x ≢ id y) xs a.0)
        (Apart-sort_desc id xs a.1)

  unfoldable pub place_asc : A → List A → List A
  place_asc x [] = x ∷ []
  place_asc x (y ∷ ys) = if leb (key x) (key y) then x ∷ y ∷ ys else y ∷ place_asc x ys

  unfoldable pub sort_asc : List A → List A
  unfolding place_asc
  sort_asc [] = []
  sort_asc (x ∷ xs) = place_asc x (sort_asc xs)

  place_asc-perm : (x : A) (ys : List A) → Perm (place_asc x ys) (x ∷ ys)
  unfolding place_asc
  place_asc-perm x [] = Perm.refl _
  place_asc-perm x (y ∷ ys) = elim (Bool-cases (leb (key x) (key y))) [
    | inl e ↦ rw e (Perm.refl _)
    | inr e ↦ rw e (Perm.trans (Perm.cons y (place_asc-perm x ys)) (Perm.swap x y ys))
  ]

  pub sort_asc-perm : (xs : List A) → Perm (sort_asc xs) xs
  unfolding sort_asc
  sort_asc-perm [] = Perm.refl _
  sort_asc-perm (x ∷ xs) =
      Perm.trans (place_asc-perm x (sort_asc xs)) (Perm.cons x (sort_asc-perm xs))
