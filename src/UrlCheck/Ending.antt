-- ===== src/UrlCheck/Ending.antt =====
-- The loop of `runCheck` in internal/urlcheck/checker.go: when it ends, and how often it probes.
use monitoring.Base.{
  if◌then◌else◌, Bool-cases, ℕ, suc, ◌+◌, ◌≤◌, ◌<◌, ◌≡◌, refl, ◌∙◌, ◌⊎◌, inl, inr, Bool, true,
  arith,
}
use monitoring.UrlCheck.Loop.{
  Position, fresh, waiting, returned, Loop, new_loop, Move, first, on_tick, on_stop, on_done, Moves,
  still, moved, Runs, idle, moves, fires, closes, cancels, has_ended,
}

abbrev pending : Bool → ℕ
pending b = if b then 1 else 0

-- How many moves are left without another tick.
abbrev moves_left : Position → Bool → ℕ
moves_left fresh tick = 2 + pending tick
moves_left waiting tick = 1 + pending tick
moves_left returned tick = 0

Move-decreases :
    {l m : Loop} → Move l m → moves_left m.position m.tick < moves_left l.position l.tick
Move-decreases (first p) = ground arith
Move-decreases (on_tick p t) = ground arith
Move-decreases (on_stop p s) = ground arith
Move-decreases (on_done p c) = ground arith

Moves-le : {n : ℕ} {l k : Loop} → Moves n l k → n ≤ moves_left l.position l.tick
Moves-le still = omega arith
Moves-le (moved s rest) = omega (arith, Move-decreases s, Moves-le rest)

Move-has_ended : {l m : Loop} → Move l m → has_ended m ≡ has_ended l
Move-has_ended (first p) = refl
Move-has_ended (on_tick p t) = refl
Move-has_ended (on_stop p s) = refl
Move-has_ended (on_done p c) = refl

Moves-has_ended : {n : ℕ} {l k : Loop} → Moves n l k → has_ended k ≡ has_ended l
Moves-has_ended still = refl
Moves-has_ended (moved s rest) = Moves-has_ended rest ∙ Move-has_ended s

Position-cases : (p : Position) → (p ≡ fresh) ⊎ ((p ≡ waiting) ⊎ (p ≡ returned))
Position-cases fresh = inl refl
Position-cases waiting = inr (inl refl)
Position-cases returned = inr (inr refl)

Loop-moves : (l : Loop) → has_ended l ≡ true → (l.position ≡ returned) ⊎ ((m : Loop) × Move l m)
Loop-moves l e = elim (Position-cases l.position) [
  | inl p ↦ inr (_, first p)
  | inr (inl p) ↦ elim (Bool-cases l.stopped) [
    | inl s ↦ inr (_, on_stop p s)
    | inr s ↦ inr (_, on_done p (ground arith))
  ]
  | inr (inr p) ↦ inl p
]

-- What the probes that are left without another tick come to.
abbrev probes_left : Position → Bool → ℕ
probes_left fresh tick = 1 + pending tick
probes_left waiting tick = pending tick
probes_left returned tick = 0

Move-probes_left :
    {l m : Loop}
    → Move l m
    → m.probes + probes_left m.position m.tick ≤ l.probes + probes_left l.position l.tick
Move-probes_left (first p) = ground arith
Move-probes_left (on_tick p t) = ground arith
Move-probes_left (on_stop p s) = ground arith
Move-probes_left (on_done p c) = ground arith

Moves-probes_left :
    {n : ℕ} {l k : Loop}
    → Moves n l k
    → k.probes + probes_left k.position k.tick ≤ l.probes + probes_left l.position l.tick
Moves-probes_left still = omega arith
Moves-probes_left (moved s rest) = omega (arith, Move-probes_left s, Moves-probes_left rest)

tick_fires : (p : Position) (t : Bool) → probes_left p true ≤ suc (probes_left p t)
tick_fires fresh t = ground arith
tick_fires waiting t = ground arith
tick_fires returned t = ground arith

Runs-probes_left :
    {n : ℕ} {l k : Loop}
    → Runs n l k
    → k.probes + probes_left k.position k.tick ≤ l.probes + probes_left l.position l.tick + n
Runs-probes_left idle = omega arith
Runs-probes_left (moves s rest) = omega (arith, Move-probes_left s, Runs-probes_left rest)
Runs-probes_left {l = l} (fires rest) =
    omega (arith, tick_fires l.position l.tick, Runs-probes_left rest)
Runs-probes_left (closes rest) = Runs-probes_left rest
Runs-probes_left (cancels rest) = Runs-probes_left rest

moves_left_le : (p : Position) (t : Bool) → moves_left p t ≤ 3
moves_left_le fresh t = ground arith
moves_left_le waiting t = ground arith
moves_left_le returned t = omega arith

probes_left_le : (p : Position) (t : Bool) → probes_left p t ≤ 2
probes_left_le fresh t = ground arith
probes_left_le waiting t = ground arith
probes_left_le returned t = omega arith

-- Let the channel of a goroutine be closed, or its context be done. However `select` chooses, the
-- goroutine makes no more than three moves without another tick, two of them probes at most, and
-- as long as it has not returned it can make one.
pub run_check-ends :
    (n : ℕ) (l k : Loop)
    → has_ended l ≡ true
    → Moves n l k
    → (n ≤ 3) × (k.probes ≤ l.probes + 2) × ((k.position ≡ returned) ⊎ ((m : Loop) × Move k m))
run_check-ends n l k e ms = (
  omega (arith, Moves-le ms, moves_left_le l.position l.tick),
  omega (arith, Moves-probes_left ms, probes_left_le l.position l.tick),
  Loop-moves k (Moves-has_ended ms ∙ e),
)

-- A new goroutine probes at most once more than its ticker has fired, whatever is closed or done
-- meanwhile.
pub run_check-probes : (n : ℕ) (k : Loop) → Runs n new_loop k → k.probes ≤ suc n
run_check-probes n k r = omega (arith, Runs-probes_left r)
