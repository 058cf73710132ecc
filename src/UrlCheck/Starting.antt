-- ===== src/UrlCheck/Starting.antt =====
-- `Start` of internal/urlcheck/checker.go: which goroutines it starts for the rows of the table.
use mathlib.Core.List.{Memᴰ}
use monitoring.Base.{
  leb, ◌==◌, Bool-cases, is_some, if_ind, place_asc, sort_asc, length, count, All, Apart, All-every,
  All-imp, All-imp₂, lookup, lookup-insert, ℕ, ◌+◌, ◌≡◌, refl, sym, ◌∙◌, ◌≢◌, inl, inr, Bool, false,
  ◌&&◌, ◌||◌, none, List, [], ◌∷◌, arith, ℕ_discrete,
}
use monitoring.Storage.{UrlCheck, ok, Env, World, IsReliable, exec, by_created_at, list_url_checks}
use monitoring.UrlCheck.Checker.{
  Context, Worker, Checker, new_checker, start_check, start_enabled, start_all, after_list, start,
}
use monitoring.UrlCheck.Running.{running, IsTidy, new_checker-IsTidy}
use monitoring.UrlCheck.Changes.{start_enabled-IsTidy}

abbrev pub id_of_row : UrlCheck → ℕ
id_of_row u = u.id

-- Whether a list has an enabled check with an id.
abbrev pub has_enabled : ℕ → List UrlCheck → Bool
has_enabled i [] = false
has_enabled i (u ∷ rows) = (u.enabled && u.id == i) || has_enabled i rows

-- The rows in the order of their creation are the same rows.
abbrev place : UrlCheck → List UrlCheck → List UrlCheck
place u rows = place_asc by_created_at u rows

abbrev sorted : List UrlCheck → List UrlCheck
sorted rows = sort_asc by_created_at rows

has_enabled-place :
    (i : ℕ) (u : UrlCheck) (rows : List UrlCheck)
    → has_enabled i (place u rows) ≡ has_enabled i (u ∷ rows)
unfolding place_asc
has_enabled-place i u [] = refl
has_enabled-place i u (v ∷ rows) = ground (arith, has_enabled-place i u rows)

has_enabled-sorted :
    (i : ℕ) (rows : List UrlCheck) → has_enabled i (sorted rows) ≡ has_enabled i rows
unfolding sort_asc
has_enabled-sorted i [] = refl
has_enabled-sorted i (u ∷ rows) =
    has_enabled-place i u (sorted rows) ∙ ground (arith, has_enabled-sorted i rows)

All-place :
    (P : UrlCheck → Type 0) (u : UrlCheck) (rows : List UrlCheck)
    → P u
    → All P rows
    → All P (place u rows)
unfolding place_asc
All-place P u [] h hs = (h, tt)
All-place P u (v ∷ rows) h hs = elim (Bool-cases (leb u.created_at v.created_at)) [
  | inl e ↦ rw e (h, hs)
  | inr e ↦ rw e (hs.0, All-place P u rows h hs.1)
]

All-sorted : (P : UrlCheck → Type 0) (rows : List UrlCheck) → All P rows → All P (sorted rows)
unfolding sort_asc
All-sorted P [] h = tt
All-sorted P (u ∷ rows) h = All-place P u (sorted rows) h.0 (All-sorted P rows h.1)

Apart-place :
    (u : UrlCheck) (rows : List UrlCheck)
    → All (λ v. u.id ≢ v.id) rows
    → Apart id_of_row rows
    → Apart id_of_row (place u rows)
unfolding place_asc
Apart-place u [] h a = (tt, tt)
Apart-place u (v ∷ rows) h a = elim (Bool-cases (leb u.created_at v.created_at)) [
  | inl e ↦ rw e (h, a)
  | inr e ↦
      rw e (
        All-place (λ x. v.id ≢ x.id) u rows (λ same. h.0 (sym same)) a.0,
        Apart-place u rows h.1 a.1,
      )
]

Apart-sorted : (rows : List UrlCheck) → Apart id_of_row rows → Apart id_of_row (sorted rows)
unfolding sort_asc
Apart-sorted [] a = tt
Apart-sorted (u ∷ rows) a =
    Apart-place u (sorted rows) (All-sorted (λ v. u.id ≢ v.id) rows a.0) (Apart-sorted rows a.1)

-- No goroutine is known for a row.
abbrev IsFree : Checker → UrlCheck → Type 0
IsFree c u = lookup ℕ_discrete u.id c.checks ≡ none

lookup-start_enabled :
    (ctx : Context) (ch : UrlCheck) (c : Checker) (i : ℕ)
    → is_some (lookup ℕ_discrete i (start_enabled ctx ch c).checks)
      ≡ ((ch.enabled && ch.id == i) || is_some (lookup ℕ_discrete i c.checks))
unfolding start_check
lookup-start_enabled ctx ch c i =
    ground (arith, lookup-insert ℕ_discrete ch.id i c.next_worker c.checks)

IsFree-start_enabled :
    (ctx : Context) (ch : UrlCheck) (c : Checker) (u : UrlCheck)
    → ch.id ≢ u.id
    → IsFree c u
    → IsFree (start_enabled ctx ch c) u
unfolding start_check
IsFree-start_enabled ctx ch c u ne free =
    ground (arith, lookup-insert ℕ_discrete ch.id u.id c.next_worker c.checks)

start_all-IsTidy :
    (ctx : Context) (rows : List UrlCheck) (c : Checker)
    → Apart id_of_row rows
    → All (IsFree c) rows
    → IsTidy c
    → IsTidy (start_all ctx rows c)
unfolding start_all
start_all-IsTidy ctx [] c a free t = t
start_all-IsTidy ctx (u ∷ rows) c a free t =
    start_all-IsTidy ctx rows (start_enabled ctx u c) a.1
      (All-imp₂ _ _ _ rows (λ v ne f. IsFree-start_enabled ctx u c v ne f) a.0 free.1)
      (start_enabled-IsTidy ctx u c free.0 t)

lookup-start_all :
    (ctx : Context) (rows : List UrlCheck) (c : Checker) (i : ℕ)
    → is_some (lookup ℕ_discrete i (start_all ctx rows c).checks)
      ≡ (has_enabled i rows || is_some (lookup ℕ_discrete i c.checks))
unfolding start_all
lookup-start_all ctx [] c i = refl
lookup-start_all ctx (u ∷ rows) c i =
    lookup-start_all ctx rows (start_enabled ctx u c) i
    ∙ ground (arith, lookup-start_enabled ctx u c i)

-- The rows of an id that are enabled.
abbrev pub enabled_as : ℕ → UrlCheck → Bool
enabled_as i u = u.enabled && u.id == i

count-place :
    (i : ℕ) (u : UrlCheck) (rows : List UrlCheck)
    → count (enabled_as i) (place u rows) ≡ count (enabled_as i) (u ∷ rows)
unfolding place_asc
count-place i u [] = refl
count-place i u (v ∷ rows) = ground (arith, count-place i u rows)

count-sorted :
    (i : ℕ) (rows : List UrlCheck) → count (enabled_as i) (sorted rows) ≡ count (enabled_as i) rows
unfolding sort_asc
count-sorted i [] = refl
count-sorted i (u ∷ rows) = count-place i u (sorted rows) ∙ ground (arith, count-sorted i rows)

running-start_enabled :
    (ctx : Context) (u : UrlCheck) (c : Checker) (i : ℕ)
    → length (running i (start_enabled ctx u c))
      ≡ count (enabled_as i) (u ∷ []) + length (running i c)
unfolding start_check
running-start_enabled ctx u c i = ground arith

running-start_all :
    (ctx : Context) (rows : List UrlCheck) (c : Checker) (i : ℕ)
    → length (running i (start_all ctx rows c)) ≡ count (enabled_as i) rows + length (running i c)
unfolding start_all
running-start_all ctx [] c i = omega arith
running-start_all ctx (u ∷ rows) c i =
    running-start_all ctx rows (start_enabled ctx u c) i
    ∙ ground (arith, running-start_enabled ctx u c i)

-- What a goroutine has: one of the rows, and the context.
abbrev pub IsFor : (UrlCheck → Type 0) → Context → Worker → Type 0
IsFor P ctx x = P x.check × (x.context ≡ ctx)

workers-start_enabled :
    (P : UrlCheck → Type 0) (ctx : Context) (u : UrlCheck) (c : Checker)
    → P u
    → All (IsFor P ctx) c.workers
    → All (IsFor P ctx) (start_enabled ctx u c).workers
unfolding start_check
workers-start_enabled P ctx u c h k =
    if_ind (λ (x : Checker). All (IsFor P ctx) x.workers) u.enabled _ _ (λ e. ((h, refl), k))
      (λ e. k)

workers-start_all :
    (P : UrlCheck → Type 0) (ctx : Context) (rows : List UrlCheck) (c : Checker)
    → All P rows
    → All (IsFor P ctx) c.workers
    → All (IsFor P ctx) (start_all ctx rows c).workers
unfolding start_all
workers-start_all P ctx [] c h k = k
workers-start_all P ctx (u ∷ rows) c h k =
    workers-start_all P ctx rows (start_enabled ctx u c) h.1 (workers-start_enabled P ctx u c h.0 k)

All-members : (rows : List UrlCheck) → All (λ u. Memᴰ u rows) rows
All-members [] = tt
All-members (u ∷ rows) = (Memᴰ.head refl, All-imp _ _ rows (λ v m. Memᴰ.tail m) (All-members rows))

none_yet : (u : UrlCheck) → IsFree new_checker u
unfolding new_checker lookup
none_yet u = refl

lookup-new_checker : (i : ℕ) → is_some (lookup ℕ_discrete i new_checker.checks) ≡ false
unfolding new_checker lookup
lookup-new_checker i = refl

module _ (env : Env) (ctx : Context) (w : World) where
  -- If all statements succeed and no two rows of url_checks share an id, then `Start` on a new
  -- checker has no error, leaves the checker tidy and the tables as they are; for each id as many
  -- goroutines run as there are enabled rows of it, which the map `checks` tells, and each
  -- goroutine has one of the rows and the context of `Start`.
  pub start-IsTidy :
      IsReliable env
      → Apart id_of_row w.tables.url_checks
      → let (c, r, w') = start env ctx new_checker w in
        (r ≡ ok tt)
        × IsTidy c
        × ((i : ℕ) → is_some (lookup ℕ_discrete i c.checks) ≡ has_enabled i w.tables.url_checks)
        × (w'.tables ≡ w.tables)
        × ((i : ℕ) → length (running i c) ≡ count (enabled_as i) w.tables.url_checks)
        × All (IsFor (λ u. Memᴰ u w.tables.url_checks) ctx) c.workers
  unfolding start list_url_checks new_checker
  start-IsTidy reliable apart =
      let found = sorted w.tables.url_checks in
      rw (reliable w.calls, start, after_list, list_url_checks, exec)
        (
          refl,
          start_all-IsTidy ctx found new_checker (Apart-sorted w.tables.url_checks apart)
              (All-every _ found none_yet) new_checker-IsTidy,
          (λ i. ground (
            arith,
            lookup-start_all ctx found new_checker i,
            lookup-new_checker i,
            has_enabled-sorted i w.tables.url_checks,
          )),
          refl,
          (λ i.
              running-start_all ctx found new_checker i
              ∙ ground (arith, count-sorted i w.tables.url_checks)),
          workers-start_all _ ctx found new_checker
              (All-sorted _ w.tables.url_checks (All-members w.tables.url_checks)) tt,
        )
