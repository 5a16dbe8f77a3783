-- ===== src/KeyManagement/Overlap.antt =====
-- How long a kid still leads to its public key: through a rotation, and through the cleanup.
use identity_ghost.Prelude.{
  ℕ, ◌+◌, ◌-◌, ◌≤◌, ◌<◌, ◌≡◌, refl, ap, ◌∙◌, Bool, true, false, some, [], ◌∷◌, ◌++◌, Text, any,
  ◌==◌, filter, find, find-append_some, find-update_where, length, arith, Bool-cases, inl, inr, All,
  All-imp, Parsed, number, eq_of_==, Option-cases, updated,
}
use identity_ghost.Errors.{ok, err, not_found, internal}
use identity_ghost.KeyManagement.{
  TenantKey, Table, Fresh, is_current_of, is_active, has_kid, get_current_signing_key,
  get_public_key_by_kid, clashes, save, superseded_now, supersede, oldest_first, deactivate_all,
  enforce_max_keys, rotate_key,
}
use identity_ghost.KeyManagement.Rows.{none_current}
use identity_ghost.KeyManagement.Limit.{active_count, length-oldest_first}
use identity_ghost.KeyManagement.Newest.{find-none_of_All}
use identity_ghost.KeyManagement.Rotated.{new_for, rotate_key-eq-ok}

active_count-supersede :
    (tenant : Text) (now : ℕ) (t : Table)
    → active_count tenant (supersede tenant now t) ≡ active_count tenant t
unfolding supersede
active_count-supersede tenant now [] = refl
active_count-supersede tenant now (k ∷ t) = ground (arith, active_count-supersede tenant now t)

active_count-append_one :
    (tenant : Text) (l : TenantKey) (t : Table)
    → active_count tenant (t ++ l ∷ []) ≤ active_count tenant t + 1
active_count-append_one tenant l [] = ground arith
active_count-append_one tenant l (k ∷ t) = ground (arith, active_count-append_one tenant l t)

-- Below the limit nothing is deactivated.
enforce_below :
    (m : ℕ) (tenant : Text) (now : ℕ) (t : Table)
    → active_count tenant t ≤ m
    → enforce_max_keys (number m) tenant now t ≡ t
unfolding enforce_max_keys deactivate_all
enforce_below m tenant now t h =
    let keys = oldest_first (filter (is_active tenant) t) in
    let few : length keys - m ≡ 0 =
      omega (arith, length-oldest_first (filter (is_active tenant) t)) in
    rw few refl

resolves-supersede :
    (tenant : Text) (now : ℕ) (kid : Text) (t : Table) {p : Text}
    → get_public_key_by_kid kid tenant t ≡ ok p
    → (k : TenantKey) × (find (has_kid kid tenant) (supersede tenant now t) ≡ some k)
      × (k.public_key ≡ p)
unfolding get_public_key_by_kid supersede
resolves-supersede tenant now kid t {p} h = elim (Option-cases (find (has_kid kid tenant) t)) [
  | inl none_there ↦ let bad = rw (none_there, get_public_key_by_kid) at h in cc
  | inr (k, found) ↦
      let returned = rw (found, get_public_key_by_kid) at h in
      (
        updated (is_current_of tenant) (superseded_now now) k,
        find-update_where (has_kid kid tenant) (is_current_of tenant) (superseded_now now) t
            (λ x. refl) found,
        ground (arith, returned),
      )
]

module _ (sha256_hex : Text → Text) (tenant : Text) (fresh : Fresh) (now later : ℕ) where
  -- While the tenant has fewer active keys than the limit, a rotation keeps every kid resolving to the
  -- public key that it had: tokens signed before can still be checked.
  pub rotate_key-keeps :
      (m : ℕ) (t : Table) (kid : Text) {key : TenantKey} {p : Text}
      → active_count tenant t < m
      → (rotate_key sha256_hex (number m) tenant fresh now later t).0 ≡ ok key
      → get_public_key_by_kid kid tenant t ≡ ok p
      → get_public_key_by_kid kid tenant
          (rotate_key sha256_hex (number m) tenant fresh now later t).1
        ≡ ok p
  unfolding get_public_key_by_kid
  rotate_key-keeps m t kid {key} {p} room h resolved =
      let (_, _, after) = rotate_key-eq-ok sha256_hex (number m) tenant fresh now later t h in
      let s = supersede tenant now t in
      let new = new_for sha256_hex (number m) tenant fresh now later t in
      let (k, found, same) = resolves-supersede tenant now kid t resolved in
      let few = enforce_below m tenant later (s ++ new ∷ []) (
        omega (arith, active_count-append_one tenant new s, active_count-supersede tenant now t)) in
      let there = find-append_some (has_kid kid tenant) s (new ∷ []) found in
      ap (λ u. get_public_key_by_kid kid tenant u) (after ∙ few)
      ∙ rw (there, get_public_key_by_kid) (ap (λ q. ok q) same)

  -- A rotation whose insert fails is not undone: the tenant is left with no signing key, and every
  -- later rotation fails as well.
  pub rotate_key-unsaved :
      (max_keys : Parsed) (t : Table)
      → (rotate_key sha256_hex max_keys tenant fresh now later t).0 ≡ err internal
      → let t' = (rotate_key sha256_hex max_keys tenant fresh now later t).1 in
        (get_current_signing_key tenant t' ≡ err not_found)
        × ((fresh' : Fresh) (now' later' : ℕ)
            → rotate_key sha256_hex max_keys tenant fresh' now' later' t' ≡ (err not_found, t'))
  unfolding rotate_key save get_current_signing_key
  rotate_key-unsaved max_keys t h =
      let s = supersede tenant now t in
      let idle =
        All-imp (λ k. k.tenant_id ≡ tenant → k.is_current ≡ false)
          (λ k. is_current_of tenant k ≡ false) s
          (λ k h.
            ground
              (arith, λ (e : (k.tenant_id == tenant) ≡ true). h (eq_of_== k.tenant_id tenant e)))
          (none_current tenant now t) in
      elim (Bool-cases (any (is_current_of tenant) t)) [
        | inr none_left ↦ let bad = rw none_left at h in cc
        | inl found ↦
            elim (Bool-cases
              (any (clashes (new_for sha256_hex max_keys tenant fresh now later t)) s)) [
                | inr free ↦ let bad = rw (found, free) at h in cc
                | inl clash ↦
                    rw (found, clash)
                      (
                        rw (find-none_of_All (is_current_of tenant) s idle, get_current_signing_key)
                            refl,
                        λ fresh' now' later'. rw (any-false (is_current_of tenant) s idle) refl,
                      )
              ]
      ]
    where
      any-false : (q : TenantKey → Bool) (u : Table) → All (λ k. q k ≡ false) u → any q u ≡ false
      any-false q [] h = refl
      any-false q (k ∷ u) h = ground (arith, h.0, any-false q u h.1)
