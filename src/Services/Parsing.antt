-- ===== src/Services/Parsing.antt =====
-- `queryService` of internal/services/services.go: what a status is, whatever the order and the number
-- of the lines that systemctl prints.
use monitoring.Base.{
  ◌==◌, if◌then◌else◌, Option-cases, length, All, Text, bytes, Fits, tokens, tokens-all,
  stop_at-none, ℕ, ◌≡◌, refl, ap, ◌∙◌, ◌≢◌, inl, inr, true, false, Option, none, some, List, [],
  ◌∷◌, arith,
}
use monitoring.Services.Monitor.{
  ServiceStatus, new_status, cut_equals, is_key, set_since, set_property, set_lines, query_service,
}

-- The value of the last line that has a key, or what was there before.
unfoldable pub last_value : Text → List Text → Text → Text
last_value key [] old = old
last_value key (line ∷ rest) old = elim (cut_equals line) [
  | none ↦ last_value key rest old
  | some kv ↦ last_value key rest (if is_key key kv.0 then kv.1 else old)
]

-- A field that a line with the key sets, and no other line.
field-set_lines :
    (time : Text → Option ℕ) (key : Text) (field : ServiceStatus → Text)
    → ((k v : Text) (svc : ServiceStatus)
        → field (set_property time k v svc) ≡ (if is_key key k then v else field svc))
    → (lines : List Text) (svc : ServiceStatus)
    → field (set_lines time lines svc) ≡ last_value key lines (field svc)
unfolding set_lines last_value
field-set_lines time key field law [] svc = refl
field-set_lines time key field law (line ∷ rest) svc = elim (Option-cases (cut_equals line)) [
  | inl e ↦ rw (e, set_lines, last_value) (field-set_lines time key field law rest svc)
  | inr ((k, v), e) ↦
      rw (e, set_lines, last_value)
        (field-set_lines time key field law rest (set_property time k v svc)
          ∙ ap (last_value key rest) (law k v svc))
]

-- The keys differ in their lengths.
keys_apart : (a b : Text) → (length a == length b) ≡ false → a ≢ b
keys_apart a b h e = ground (arith, ap length e)

active-set_since : (t : Option ℕ) (svc : ServiceStatus) → (set_since t svc).active ≡ svc.active
active-set_since none svc = refl
active-set_since (some t) svc = refl

active-set_property :
    (time : Text → Option ℕ) (k v : Text) (svc : ServiceStatus)
    → (set_property time k v svc).active
      ≡ (if is_key (bytes "ActiveState") k then v else svc.active)
unfolding set_property
active-set_property time k v svc = ground (arith, active-set_since (time v) svc)

sub_state-set_since :
    (t : Option ℕ) (svc : ServiceStatus) → (set_since t svc).sub_state ≡ svc.sub_state
sub_state-set_since none svc = refl
sub_state-set_since (some t) svc = refl

sub_state-set_property :
    (time : Text → Option ℕ) (k v : Text) (svc : ServiceStatus)
    → (set_property time k v svc).sub_state
      ≡ (if is_key (bytes "SubState") k then v else svc.sub_state)
unfolding set_property
sub_state-set_property time k v svc = ground (
  arith,
  sub_state-set_since (time v) svc,
  keys_apart (bytes "SubState") (bytes "ActiveState") refl,
)

load_state-set_since :
    (t : Option ℕ) (svc : ServiceStatus) → (set_since t svc).load_state ≡ svc.load_state
load_state-set_since none svc = refl
load_state-set_since (some t) svc = refl

load_state-set_property :
    (time : Text → Option ℕ) (k v : Text) (svc : ServiceStatus)
    → (set_property time k v svc).load_state
      ≡ (if is_key (bytes "LoadState") k then v else svc.load_state)
unfolding set_property
load_state-set_property time k v svc = ground (
  arith,
  load_state-set_since (time v) svc,
  keys_apart (bytes "LoadState") (bytes "ActiveState") refl,
  keys_apart (bytes "LoadState") (bytes "SubState") refl,
)

-- For whatever lines systemctl prints, in any order and number, the three states of a service are
-- the values of the last lines with the keys ActiveState, SubState and LoadState, and empty where
-- there is none; lines without an equals sign do not count. The lines are those that the scanner
-- yields, which are all of them, and there is no error, if each is shorter than 64 KB.
pub query_service-last :
    (time : Text → Option ℕ) (name : Text) (lines : List Text)
    → let (svc, fine) = query_service time name (some lines) in
      (svc.active ≡ last_value (bytes "ActiveState") (tokens lines) [])
      × (svc.sub_state ≡ last_value (bytes "SubState") (tokens lines) [])
      × (svc.load_state ≡ last_value (bytes "LoadState") (tokens lines) [])
      × (All Fits lines → (tokens lines ≡ lines) × (fine ≡ true))
unfolding query_service
query_service-last time name lines = (
  field-set_lines time (bytes "ActiveState") (λ s. s.active) (active-set_property time)
      (tokens lines) (new_status name),
  field-set_lines time (bytes "SubState") (λ s. s.sub_state) (sub_state-set_property time)
      (tokens lines) (new_status name),
  field-set_lines time (bytes "LoadState") (λ s. s.load_state) (load_state-set_property time)
      (tokens lines) (new_status name),
  λ h. (tokens-all lines h, rw (stop_at-none lines h) refl),
)
