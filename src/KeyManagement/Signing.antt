-- ===== src/KeyManagement/Signing.antt =====
-- The key that signs after a rotation, and the public key that its kid leads to.
use identity_ghost.Prelude.{
  ℕ, ◌≤◌, ◌<◌, ◌≡◌, ◌≢◌, refl, ap, ◌∙◌, true, false, some, or_else, [], ◌∷◌, Text, ◌==◌, filter,
  find, find-append_none, find-update_where, length, update_where, arith, All-imp, Parsed, number,
  eq_of_==, ==_of_eq,
}
use identity_ghost.Errors.{ok}
use identity_ghost.KeyManagement.{
  TenantKey, Table, Fresh, take, is_current_of, is_active, has_kid, get_current_signing_key,
  get_public_key_by_kid, supersede, highest_version, oldest_first, deactivated, surplus,
  enforce_max_keys, new_key, rotate_key,
}
use identity_ghost.KeyManagement.Rows.{no_clash, highest_version_bound, none_current}
use identity_ghost.KeyManagement.Loops.{among, deactivate_all-update_where}
use identity_ghost.KeyManagement.Newest.{find-none_of_All, find-update_where_kept, newest_stays}
use identity_ghost.KeyManagement.Rotated.{new_for, with_new, rotate_key-eq-ok}

-- The keys that the limit deactivates.
abbrev surplus_keys : Parsed → Text → Table → Table
surplus_keys max_keys tenant t =
    let keys = oldest_first (filter (is_active tenant) t) in
    take (surplus max_keys (length keys)) keys

enforce-update_where :
    (max_keys : Parsed) (tenant : Text) (now : ℕ) (t : Table)
    → enforce_max_keys max_keys tenant now t
      ≡ update_where (among (surplus_keys max_keys tenant t)) (deactivated now) t
unfolding enforce_max_keys
enforce-update_where max_keys tenant now t =
    deactivate_all-update_where now (surplus_keys max_keys tenant t) t

find_signing :
    (tenant : Text) (t : Table) {k : TenantKey}
    → find (is_current_of tenant) t ≡ some k
    → get_current_signing_key tenant t ≡ ok (k.private_key, k.kid)
unfolding get_current_signing_key
find_signing tenant t h = rw (h, get_current_signing_key)

find_public :
    (kid tenant : Text) (t : Table) {k : TenantKey}
    → find (has_kid kid tenant) t ≡ some k
    → get_public_key_by_kid kid tenant t ≡ ok k.public_key
unfolding get_public_key_by_kid
find_public kid tenant t h = rw (h, get_public_key_by_kid)

module _ (sha256_hex : Text → Text) (tenant : Text) (fresh : Fresh) (now later : ℕ) where
  module _ (max_keys : Parsed) where
    find-current_new :
        (t : Table)
        → find (is_current_of tenant) (with_new sha256_hex max_keys tenant fresh now later t)
          ≡ some (new_for sha256_hex max_keys tenant fresh now later t)
    unfolding new_key
    find-current_new t =
        let s = supersede tenant now t in
        find-append_none (is_current_of tenant) s _ (
          find-none_of_All (is_current_of tenant) s (
            All-imp (λ k. k.tenant_id ≡ tenant → k.is_current ≡ false) _ s
              (λ k h.
                ground (
                  arith,
                  λ (e : (k.tenant_id == tenant) ≡ true). h (eq_of_== k.tenant_id tenant e),
                ))
              (none_current tenant now t)))
        ∙ ground (arith, ==_of_eq tenant tenant refl)

    -- A rotation that returned a key has made it the signing key: a token is signed with its private
    -- key and carries its kid, whatever the limit on active keys is.
    pub rotate_key-signs :
        (t : Table) {key : TenantKey}
        → (rotate_key sha256_hex max_keys tenant fresh now later t).0 ≡ ok key
        → get_current_signing_key tenant (rotate_key sha256_hex max_keys tenant fresh now later t).1
          ≡ ok (fresh.private_key, key.kid)
    unfolding new_key
    rotate_key-signs t {key} h =
        let (same, _, after) = rotate_key-eq-ok sha256_hex max_keys tenant fresh now later t h in
        let w = with_new sha256_hex max_keys tenant fresh now later t in
        let old = surplus_keys max_keys tenant w in
        let found =
          find-update_where (is_current_of tenant) (among old) (deactivated later) w (λ x. refl)
            (find-current_new t) in
        let there = find_signing tenant (update_where (among old) (deactivated later) w) found in
        ap (λ s. get_current_signing_key tenant s)
          (after ∙ enforce-update_where max_keys tenant later w)
        ∙ there
        ∙ ground (arith, same)

  -- With a limit that is not zero, the kid of the new key leads verifiers to the new public key: what
  -- is signed after the rotation can be checked.
  pub rotate_key-resolves :
      (m : ℕ) (t : Table) {key : TenantKey}
      → 0 < m
      → (rotate_key sha256_hex (number m) tenant fresh now later t).0 ≡ ok key
      → get_public_key_by_kid key.kid tenant
          (rotate_key sha256_hex (number m) tenant fresh now later t).1
        ≡ ok fresh.public_key
  unfolding new_key
  rotate_key-resolves m t {key} pos h =
      let (same, free, after) = rotate_key-eq-ok sha256_hex (number m) tenant fresh now later t h in
      let s = supersede tenant now t in
      let new = new_for sha256_hex (number m) tenant fresh now later t in
      let w = with_new sha256_hex (number m) tenant fresh now later t in
      let old = surplus_keys (number m) tenant w in
      let apart = no_clash new s free in
      let fresh_here : find (has_kid new.kid tenant) w ≡ some new =
        find-append_none (has_kid new.kid tenant) s (new ∷ []) (
          find-none_of_All (has_kid new.kid tenant) s (
            All-imp (λ k. (k.id ≢ new.id) × (k.kid ≢ new.kid)) _ s
              (λ k d.
                let other = d.1 in
                ground (arith, λ (e : (k.kid == new.kid) ≡ true). other (eq_of_== k.kid new.kid e)))
              apart))
        ∙ ground (arith, ==_of_eq new.kid new.kid refl, ==_of_eq tenant tenant refl) in
      let stays : among old new ≡ false =
        newest_stays m tenant new s pos (ground (arith, ==_of_eq tenant tenant refl))
          (All-imp (λ k. (k.id ≢ new.id) × (k.kid ≢ new.kid)) _ s (λ k d. d.0) apart)
          (All-imp
            (λ k. k.tenant_id ≡ tenant → k.key_version ≤ or_else (highest_version tenant s) 0) _ s
            (λ k b e. let below = b e in omega arith) (highest_version_bound tenant s)) in
      let found =
        find-update_where_kept (has_kid new.kid tenant) (among old) (deactivated later) w
          (λ x d. ground arith) fresh_here stays in
      ap
        (λ (k : TenantKey).
          get_public_key_by_kid k.kid tenant
            (rotate_key sha256_hex (number m) tenant fresh now later t).1)
        same
      ∙ ap (λ s. get_public_key_by_kid new.kid tenant s)
          (after ∙ enforce-update_where (number m) tenant later w)
      ∙ find_public new.kid tenant (update_where (among old) (deactivated later) w) found
