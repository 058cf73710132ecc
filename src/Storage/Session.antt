-- ===== src/Storage/Session.antt =====
-- The world that the program runs in: the database's tables, and an environment that says which
-- statement fails and what the clock reads. internal/storage/sqlite.go runs each statement through
-- `db.conn`; `exec` is that call.
use monitoring.Base.{Float64, Text, ℕ, suc, ◌≡◌, Option, none, some}
use monitoring.Storage.Schema.{Tables}

-- A statement that SQLite refuses, or a failure of the file or of the driver.
pub data Error : Type 0 where
  unique_violation foreign_key_violation no_rows : Error
  failure : Text → Error

pub data Result (A : Type 0) : Type 0 where
  ok : A → Result A
  err : Error → Result A

-- The n-th statement fails if `faults n` holds an error; `clock n` is the n-th reading of
-- `time.Now()`; `percent` is SQLite's `CAST(a AS REAL) * 100.0 / b`.
pub record Env : Type 0 where
  pub faults : ℕ → Option Error
  pub clock : ℕ → ℕ
  pub percent : ℕ → ℕ → Float64

-- `calls` statements have run, and the clock was read `reads` times.
pub record World : Type 0 where
  pub tables : Tables
  pub calls : ℕ
  pub reads : ℕ

-- No statement fails but by its own constraints.
abbrev pub IsReliable : Env → Type 0
IsReliable env = (n : ℕ) → env.faults n ≡ none

-- What a program does with the world: it may fail, and leaves a world.
abbrev pub Action : Type 0 → Type 0
Action A = World → Result A × World

infixl 5 ◌>>=◌ ◌>>◌
abbrev pub ◌>>=◌ : {A B : Type 0} → Action A → (A → Action B) → Action B
◌>>=◌ m f w = let (r, w') = m w in elim r [ ok a ↦ f a w' | err e ↦ (err e, w') ]

abbrev pub ◌>>◌ : {B : Type 0} → Action (Unit {0}) → Action B → Action B
m >> k = m >>= λ _. k

abbrev pub return : {A : Type 0} → A → Action A
return a w = (ok a, w)

abbrev pub now : Env → Action ℕ
now env w = (ok (env.clock w.reads), record w { reads = suc w.reads })

-- A statement that succeeds by itself: its answer and the tables that it leaves.
abbrev pub commit : {A : Type 0} → World → Result (A × Tables) → Result A × World
commit w (ok (a, t)) = (ok a, record w { tables = t; calls = suc w.calls })
commit w (err e) = (err e, record w { calls = suc w.calls })

abbrev pub exec : {A : Type 0} → Env → (Tables → Result (A × Tables)) → Action A
exec env f w = elim (env.faults w.calls) [
  | none ↦ commit w (f w.tables)
  | some e ↦ (err e, record w { calls = suc w.calls })
]
