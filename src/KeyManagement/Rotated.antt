-- ===== src/KeyManagement/Rotated.antt =====
-- What a rotation that returned did to the table, and the limit after it.
use identity_ghost.Prelude.{
  ℕ, ◌≤◌, ◌≡◌, false, [], ◌∷◌, ◌++◌, Text, any, Bool-cases, inl, inr, Parsed, number,
}
use identity_ghost.Errors.{ok}
use identity_ghost.KeyManagement.{
  TenantKey, Table, Fresh, is_current_of, clashes, save, supersede, enforce_max_keys, next_key,
  rotate_key,
}
use identity_ghost.KeyManagement.Limit.{active_count, enforce_max_keys-bound}

module _ (sha256_hex : Text → Text) (max_keys : Parsed) (tenant : Text) (fresh : Fresh)
    (now later : ℕ) where
  abbrev pub new_for : Table → TenantKey
  new_for t = next_key sha256_hex tenant fresh (supersede tenant now t)

  abbrev pub with_new : Table → Table
  with_new t = supersede tenant now t ++ new_for t ∷ []

  pub rotate_key-eq-ok :
      (t : Table) {key : TenantKey}
      → (rotate_key sha256_hex max_keys tenant fresh now later t).0 ≡ ok key
      → (key ≡ new_for t)
        × (any (clashes (new_for t)) (supersede tenant now t) ≡ false)
        × ((rotate_key sha256_hex max_keys tenant fresh now later t).1
            ≡ enforce_max_keys max_keys tenant later (with_new t))
  unfolding rotate_key save
  rotate_key-eq-ok t h = elim (Bool-cases (any (is_current_of tenant) t)) [
    | inr none_left ↦ let bad = rw none_left at h in cc
    | inl found ↦ elim (Bool-cases (any (clashes (new_for t)) (supersede tenant now t))) [
      | inl clash ↦ let bad = rw (found, clash) at h in cc
      | inr free ↦ let returned = rw (found, free) at h in (cc, free, rw (found, free))
    ]
  ]

module _ (sha256_hex : Text → Text) (tenant : Text) (fresh : Fresh) (now later : ℕ) where
  -- After a rotation that returned, with a limit of m, the tenant has at most m active keys, however
  -- many it had before.
  pub rotate_key-bound :
      (m : ℕ) (t : Table) {key : TenantKey}
      → (rotate_key sha256_hex (number m) tenant fresh now later t).0 ≡ ok key
      → active_count tenant (rotate_key sha256_hex (number m) tenant fresh now later t).1 ≤ m
  rotate_key-bound m t h =
      let (_, _, after) = rotate_key-eq-ok sha256_hex (number m) tenant fresh now later t h in
      rw after (
        enforce_max_keys-bound m tenant later
          (with_new sha256_hex (number m) tenant fresh now later t))
