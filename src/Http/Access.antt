-- ===== src/Http/Access.antt =====
-- The flag `--basic-auth` (internal/config/config.go) and the middleware of internal/http/routes.go
-- together: which requests reach a handler.
use monitoring.Base.{
  ◌==◌, All, Text, ℕ, ◌≡◌, refl, Bool, true, false, Option, none, some, [], ◌∷◌, ◌++◌, arith,
}
use monitoring.Config.{Config, auth_enabled, cut_colon, set_basic_auth}
use monitoring.Http.Routes.{with_basic_auth, admits}

cut_colon-found :
    (user pass : Text)
    → All (λ c. (c == b':') ≡ false) user
    → cut_colon (user ++ b':' ∷ pass) ≡ some (user, pass)
unfolding cut_colon
cut_colon-found [] pass h = refl
cut_colon-found (c ∷ user) pass h = rw (h.0, cut_colon-found user pass h.1) refl

module _ (hash : Text → Option Text) (compare : Text → Text → Bool) (u p : ℕ) (user pass : Text)
    (cfg : Config) where
  set_basic_auth-eq :
      (secret : Text)
      → All (λ c. (c == b':') ≡ false) (u ∷ user)
      → hash (p ∷ pass) ≡ some secret
      → set_basic_auth hash ((u ∷ user) ++ b':' ∷ p ∷ pass) cfg
        ≡ some (record cfg { basic_auth_user = u ∷ user; basic_auth_hash = some secret })
  unfolding set_basic_auth
  set_basic_auth-eq secret plain hashed =
      rw (cut_colon-found (u ∷ user) (p ∷ pass) plain, set_basic_auth) (rw hashed refl)

  -- What bcrypt answers to the hash of a password: true to that password, and to no other.
  abbrev pub IsHashOf : Text → Type 0
  IsHashOf secret =
      (q : Text)
      → ((compare secret q ≡ true) → q ≡ p ∷ pass) × (q ≡ p ∷ pass → compare secret q ≡ true)

  with_basic_auth-only :
      (secret : Text) (c : Config) (creds : Option (Text × Text))
      → c.basic_auth_user ≡ u ∷ user
      → c.basic_auth_hash ≡ some secret
      → IsHashOf secret
      → with_basic_auth compare c creds ≡ true
      → creds ≡ some (u ∷ user, p ∷ pass)
  unfolding with_basic_auth
  with_basic_auth-only secret c none named hashed law h = cc
  with_basic_auth-only secret c (some (n, q)) named hashed law h = ground (arith, (law q).0)

  with_basic_auth-all :
      (secret : Text) (c : Config)
      → c.basic_auth_user ≡ u ∷ user
      → c.basic_auth_hash ≡ some secret
      → IsHashOf secret
      → with_basic_auth compare c (some (u ∷ user, p ∷ pass)) ≡ true
  unfolding with_basic_auth
  with_basic_auth-all secret c named hashed law = ground (arith, (law (p ∷ pass)).1 refl)

  -- Let the flag `--basic-auth` be a user without a colon, a colon and a password, neither of
  -- them empty; let bcrypt hash the password, and answer yes to that hash for this password and
  -- no other. Then the flag is accepted, and the middleware lets a request through just if its
  -- credentials are that user and that password.
  pub admits-credentials :
      (secret : Text)
      → All (λ c. (c == b':') ≡ false) (u ∷ user)
      → hash (p ∷ pass) ≡ some secret
      → IsHashOf secret
      → (c : Config) × (set_basic_auth hash ((u ∷ user) ++ b':' ∷ p ∷ pass) cfg ≡ some c)
        × ((creds : Option (Text × Text))
            → ((admits compare c creds ≡ true) → creds ≡ some (u ∷ user, p ∷ pass))
              × (creds ≡ some (u ∷ user, p ∷ pass) → admits compare c creds ≡ true))
  unfolding admits auth_enabled
  admits-credentials secret plain hashed law =
      let c : Config = record cfg { basic_auth_user = u ∷ user; basic_auth_hash = some secret } in
      (
        c,
        set_basic_auth-eq secret plain hashed,
        λ creds. (
          (λ h. with_basic_auth-only secret c creds refl refl law h),
          (λ e. rw e (with_basic_auth-all secret c refl refl law)),
        ),
      )
