-- ===== src/Storage/Rows.antt =====
-- The keys of url_checks in internal/storage/schema.go: lists of rows, as the statements of
-- internal/storage/sqlite.go change them.
use monitoring.Base.{
  is_some, if_ind, keep, All, Apart, All-imp, All-imp₂, Text, ℕ, suc, ◌<◌, ◌≡◌, refl, sym, ◌≢◌,
  Bool, false, List, [], ◌∷◌, map, arith,
}
use monitoring.Storage.Schema.{UrlCheck}
use monitoring.Storage.Checks.{url_taken, find_check, set_columns}

abbrev pub url_of_row : UrlCheck → Text
url_of_row u = u.url

-- No two rows have an id or a url in common, and the ids were given out.
pub record HasUniqueRows (n : ℕ) (rows : List UrlCheck) : Type 0 where
  pub ids : Apart (λ (u : UrlCheck). u.id) rows
  pub urls : Apart url_of_row rows
  pub below : All (λ (u : UrlCheck). u.id < n) rows

abbrev IsFree : ℕ → Text → List UrlCheck → Type 0
IsFree id url rows = All (λ (v : UrlCheck). v.id ≢ id → v.url ≢ url) rows

pub url_taken-IsFree :
    (id : ℕ) (url : Text) (rows : List UrlCheck)
    → url_taken id url rows ≡ false
    → IsFree id url rows
unfolding url_taken
url_taken-IsFree id url [] h = tt
url_taken-IsFree id url (v ∷ rows) h =
    ((λ ne e. ground arith), url_taken-IsFree id url rows (ground arith))

pub no_row :
    (id : ℕ) (rows : List UrlCheck)
    → is_some (find_check id rows) ≡ false
    → All (λ (v : UrlCheck). v.id ≢ id) rows
unfolding find_check
no_row id [] h = tt
no_row id (v ∷ rows) h = (ground arith, no_row id rows (ground arith))

-- Without a row of the id nothing is set.
pub set_columns-none :
    (u : UrlCheck) (rows : List UrlCheck)
    → All (λ (v : UrlCheck). v.id ≢ u.id) rows
    → map (set_columns u) rows ≡ rows
set_columns-none u [] h = refl
set_columns-none u (v ∷ rows) h = ground (arith, h.0, set_columns-none u rows h.1)

ids-set_columns :
    (u : UrlCheck) (id : ℕ) (rows : List UrlCheck)
    → All (λ (w : UrlCheck). id ≢ w.id) rows
    → All (λ (w : UrlCheck). id ≢ w.id) (map (set_columns u) rows)
ids-set_columns u id [] h = tt
ids-set_columns u id (v ∷ rows) h = (ground (arith, h.0), ids-set_columns u id rows h.1)

set_columns-id : (u v : UrlCheck) → (set_columns u v).id ≡ v.id
set_columns-id u v = ground arith

Apart-set_columns-ids :
    (u : UrlCheck) (rows : List UrlCheck)
    → Apart (λ (v : UrlCheck). v.id) rows
    → Apart (λ (v : UrlCheck). v.id) (map (set_columns u) rows)
Apart-set_columns-ids u [] h = tt
Apart-set_columns-ids u (v ∷ rows) h =
    (rw (set_columns-id u v) (ids-set_columns u v.id rows h.0), Apart-set_columns-ids u rows h.1)

urls-set_columns :
    (u v : UrlCheck) (rows : List UrlCheck)
    → (v.id ≢ u.id → v.url ≢ u.url)
    → All (λ (w : UrlCheck). v.id ≢ w.id) rows
    → All (λ (w : UrlCheck). v.url ≢ w.url) rows
    → IsFree u.id u.url rows
    → All (λ (w : UrlCheck). (set_columns u v).url ≢ w.url) (map (set_columns u) rows)
urls-set_columns u v [] f ids urls free = tt
urls-set_columns u v (w ∷ rows) f ids urls free =
    (λ e. ground (arith, f, ids.0, urls.0, free.0), urls-set_columns u v rows f ids.1 urls.1 free.1)

Apart-set_columns-urls :
    (u : UrlCheck) (rows : List UrlCheck)
    → Apart (λ (v : UrlCheck). v.id) rows
    → Apart url_of_row rows
    → IsFree u.id u.url rows
    → Apart url_of_row (map (set_columns u) rows)
Apart-set_columns-urls u [] ids urls free = tt
Apart-set_columns-urls u (v ∷ rows) ids urls free = (
  urls-set_columns u v rows free.0 ids.0 urls.0 free.1,
  Apart-set_columns-urls u rows ids.1 urls.1 free.1,
)

below-set_columns :
    (u : UrlCheck) (n : ℕ) (rows : List UrlCheck)
    → All (λ (v : UrlCheck). v.id < n) rows
    → All (λ (v : UrlCheck). v.id < n) (map (set_columns u) rows)
below-set_columns u n [] h = tt
below-set_columns u n (v ∷ rows) h = (rw (set_columns-id u v) h.0, below-set_columns u n rows h.1)

pub set_columns-HasUniqueRows :
    (u : UrlCheck) (n : ℕ) (rows : List UrlCheck)
    → IsFree u.id u.url rows
    → HasUniqueRows n rows
    → HasUniqueRows n (map (set_columns u) rows)
set_columns-HasUniqueRows u n rows free h = record {
  ids = Apart-set_columns-ids u rows h.ids;
  urls = Apart-set_columns-urls u rows h.ids h.urls free;
  below = below-set_columns u n rows h.below;
}

pub insert-HasUniqueRows :
    (u : UrlCheck) (n : ℕ) (rows : List UrlCheck)
    → url_taken n u.url rows ≡ false
    → HasUniqueRows n rows
    → HasUniqueRows (suc n) (record u { id = n } ∷ rows)
insert-HasUniqueRows u n rows free h = record {
  ids = (All-imp _ _ rows (λ (v : UrlCheck) k e. omega arith) h.below, h.ids);
  urls = (
    All-imp₂ _ _ _ rows (λ (v : UrlCheck) k f e. f (λ i. omega arith) (sym e)) h.below
        (url_taken-IsFree n u.url rows free),
    h.urls,
  );
  below = (omega arith, All-imp _ _ rows (λ (v : UrlCheck) k. omega arith) h.below);
}

All-kept :
    (P : UrlCheck → Type 0) (p : UrlCheck → Bool) (rows : List UrlCheck)
    → All P rows
    → All P (keep p rows)
All-kept P p [] h = tt
All-kept P p (v ∷ rows) h =
    if_ind (All P) (p v) _ _ (λ e. (h.0, All-kept P p rows h.1)) (λ e. All-kept P p rows h.1)

Apart-kept :
    {K : Type 0} (key : UrlCheck → K) (p : UrlCheck → Bool) (rows : List UrlCheck)
    → Apart key rows
    → Apart key (keep p rows)
Apart-kept key p [] h = tt
Apart-kept key p (v ∷ rows) h =
    if_ind (Apart key) (p v) _ _
      (λ e. (All-kept (λ w. key v ≢ key w) p rows h.0, Apart-kept key p rows h.1))
      (λ e. Apart-kept key p rows h.1)

pub keep-HasUniqueRows :
    (p : UrlCheck → Bool) (n : ℕ) (rows : List UrlCheck)
    → HasUniqueRows n rows
    → HasUniqueRows n (keep p rows)
keep-HasUniqueRows p n rows h = record {
  ids = Apart-kept (λ (u : UrlCheck). u.id) p rows h.ids;
  urls = Apart-kept url_of_row p rows h.urls;
  below = All-kept (λ (u : UrlCheck). u.id < n) p rows h.below;
}
