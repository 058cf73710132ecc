-- ===== src/UrlCheck/Loop.antt =====
-- internal/urlcheck/checker.go, `runCheck`: the loop of one goroutine as a relation. `select` takes any case
-- that is ready. The ticker's channel holds one tick, and a tick that finds it full is dropped.
use monitoring.Base.{ℕ, suc, ◌≡◌, Bool, true, false, ◌||◌}

-- Before the probe that is run at once; at the `select`; after the return.
pub data Position : Type 0 where
  fresh waiting returned : Position

-- `stopped`: the channel `stopCh` is closed; `cancelled`: the context is done.
pub record Loop : Type 0 where
  pub position : Position
  pub tick : Bool
  pub stopped : Bool
  pub cancelled : Bool
  pub probes : ℕ

abbrev pub new_loop : Loop
new_loop = record { position = fresh; tick = false; stopped = false; cancelled = false; probes = 0 }

-- What the goroutine does by itself.
pub data Move (l : Loop) : Loop → Type 0 where
  first : l.position ≡ fresh → Move l (record l { position = waiting; probes = suc l.probes })
  on_tick :
      l.position ≡ waiting
      → l.tick ≡ true
      → Move l (record l { tick = false; probes = suc l.probes })
  on_stop : l.position ≡ waiting → l.stopped ≡ true → Move l (record l { position = returned })
  on_done : l.position ≡ waiting → l.cancelled ≡ true → Move l (record l { position = returned })

-- `n` moves in a row, with no signal between them.
pub data Moves : ℕ → Loop → Loop → Type 0 where
  still : {l : Loop} → Moves 0 l l
  moved : {n : ℕ} {l m k : Loop} → Move l m → Moves n m k → Moves (suc n) l k

-- Moves in any order with what the ticker, `stopCheck` and the owner of the context do; the ticker
-- fires `n` times.
pub data Runs : ℕ → Loop → Loop → Type 0 where
  idle : {l : Loop} → Runs 0 l l
  moves : {n : ℕ} {l m k : Loop} → Move l m → Runs n m k → Runs n l k
  fires : {n : ℕ} {l k : Loop} → Runs n (record l { tick = true }) k → Runs (suc n) l k
  closes : {n : ℕ} {l k : Loop} → Runs n (record l { stopped = true }) k → Runs n l k
  cancels : {n : ℕ} {l k : Loop} → Runs n (record l { cancelled = true }) k → Runs n l k

abbrev pub has_ended : Loop → Bool
has_ended l = l.stopped || l.cancelled
