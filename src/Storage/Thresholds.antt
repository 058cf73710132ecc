-- ===== src/Storage/Thresholds.antt =====
-- internal/storage/sqlite.go, "Thresholds": the statements on the table thresholds.
use monitoring.Base.{Float64, insert, Text, text_discrete, List}
use monitoring.Storage.Session.{ok, Env, Action, exec}

-- The rows are read into a map; `key` is the primary key, so the table is one.
unfoldable pub get_thresholds : Env → Action (List (Text × Float64))
get_thresholds env = exec env (λ t. ok (t.thresholds, t))

-- `INSERT … ON CONFLICT(key) DO UPDATE SET value=excluded.value`
unfoldable pub set_threshold : Env → Text → Float64 → Action (Unit {0})
set_threshold env key value =
    exec env (λ t. ok (tt, record t { thresholds = insert text_discrete key value t.thresholds }))
