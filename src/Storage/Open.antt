-- ===== src/Storage/Open.antt =====
-- `Open` of internal/storage/sqlite.go: the schema is applied to what the file holds, in one statement that
-- leaves tables and thresholds that are there alone. An empty file is none.
use monitoring.Base.{
  Option-cases, Float64, lookup, insert, lookup-insert, Text, text_discrete, ℕ, suc, ◌≡◌, refl, sym,
  ◌∙◌, inl, inr, Option, none, some, List, [], ◌∷◌, arith,
}
use monitoring.Storage.Schema.{Tables, default_thresholds, new_tables}
use monitoring.Storage.Session.{Result, ok, err, Env, World}

-- `INSERT OR IGNORE`: a key that has a row keeps it.
unfoldable pub insert_or_ignore :
    List (Text × Float64) → List (Text × Float64) → List (Text × Float64)
insert_or_ignore [] rows = rows
insert_or_ignore ((k, v) ∷ new) rows = elim (lookup text_discrete k rows) [
  | none ↦ insert_or_ignore new (insert text_discrete k v rows)
  | some old ↦ insert_or_ignore new rows
]

-- `schemaSQL` over tables that are there.
unfoldable pub migrate : Option Tables → Tables
unfolding insert_or_ignore
migrate none = new_tables
migrate (some t) = record t { thresholds = insert_or_ignore default_thresholds t.thresholds }

-- The error of the driver, or of the schema, is that of `Open`; `faults 0` is for the first call.
-- `calls` statements have run and the clock was read `reads` times before.
unfoldable pub open_database : Env → ℕ → ℕ → Option Tables → Result World
unfolding migrate
open_database env calls reads file = elim (env.faults calls) [
  | some e ↦ err e
  | none ↦ ok (record { tables = migrate file; calls = suc calls; reads = reads })
]

abbrev pub or_default : Option Float64 → Option Float64 → Option Float64
or_default none d = d
or_default (some v) d = some v

or_default-none : (o : Option Float64) → or_default o none ≡ o
or_default-none none = refl
or_default-none (some v) = refl

or_default-again : (o d : Option Float64) → or_default (or_default o d) d ≡ or_default o d
or_default-again none none = refl
or_default-again none (some v) = refl
or_default-again (some v) d = refl

lookup-insert_or_ignore :
    (k : Text) (new rows : List (Text × Float64))
    → lookup text_discrete k (insert_or_ignore new rows)
      ≡ or_default (lookup text_discrete k rows) (lookup text_discrete k new)
unfolding insert_or_ignore lookup
lookup-insert_or_ignore k [] rows = sym (or_default-none (lookup text_discrete k rows))
lookup-insert_or_ignore k ((j, v) ∷ new) rows = elim (Option-cases (lookup text_discrete j rows)) [
  | inl e ↦
      rw (e, insert_or_ignore)
        (lookup-insert_or_ignore k new (insert text_discrete j v rows)
          ∙ rw (lookup-insert text_discrete j k v rows) (ground (arith, e)))
  | inr (old, e) ↦ rw (e, insert_or_ignore) (lookup-insert_or_ignore k new rows ∙ ground (arith, e))
]

-- Opening a file that holds tables changes nothing but the thresholds; a threshold that has a row
-- keeps its value, and one of the five that has none takes its default; opening it again changes
-- no value any more.
pub migrate-keeps :
    (t : Tables) (k : Text)
    → let t' = migrate (some t) in
      (t' ≡ record t { thresholds = t'.thresholds })
      × (lookup text_discrete k t'.thresholds
          ≡ or_default
              (lookup text_discrete k t.thresholds)
              (lookup text_discrete k default_thresholds))
      × (lookup text_discrete k (migrate (some t')).thresholds
          ≡ lookup text_discrete k t'.thresholds)
unfolding migrate
migrate-keeps t k =
    let first = lookup-insert_or_ignore k default_thresholds t.thresholds in
    let again =
      lookup-insert_or_ignore k default_thresholds
        (insert_or_ignore default_thresholds t.thresholds) in
    (refl, first, again ∙ rw first (or_default-again (lookup text_discrete k t.thresholds) _))
