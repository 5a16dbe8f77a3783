-- ===== src/KeyManagement/Rows.antt =====
-- The invariant of the key table, and the operations that write to it.
use identity_ghost.Prelude.{
  ℕ, length, filter, Parsed, ◌≤◌, ◌≡◌, ◌≢◌, refl, true, false, List, [], ◌∷◌, arith, or_else, any,
  Text, ◌==◌, Bool-cases, inl, inr, All, All-imp, Pairwise, Pairwise-update_where,
  Pairwise-append_one, ==_of_eq,
}
use identity_ghost.Errors.{Result, ok, err}
use identity_ghost.KeyManagement.{
  TenantKey, Table, Fresh, is_current_of, is_active, clashes, save, superseded_now, supersede,
  highest_version, deactivated, deactivate, deactivate_all, enforce_max_keys, take, surplus,
  oldest_first, new_key, finish, next_key, rotate_key,
}

-- Two rows of the table: ids and kids are unique, and within a tenant so are versions; at most one
-- key of a tenant is current.
pub record Compatible (k l : TenantKey) : Type 0 where
  pub ids : k.id ≢ l.id
  pub kids : k.kid ≢ l.kid
  pub versions : k.tenant_id ≡ l.tenant_id → k.key_version ≢ l.key_version
  pub current : k.tenant_id ≡ l.tenant_id → k.is_current ≡ true → l.is_current ≡ false

abbrev pub IsValid : Table → Type 0
IsValid = Pairwise Compatible

pub deactivate-IsValid :
    (now : ℕ) (id : Text) (t : Table) → IsValid t → IsValid (deactivate now id t)
unfolding deactivate
deactivate-IsValid now id t w =
    Pairwise-update_where Compatible (λ k. k.id == id) (deactivated now) t
      (λ k l c. record { ids = c.ids; kids = c.kids; versions = c.versions; current = c.current })
      (λ k l c. record { ids = c.ids; kids = c.kids; versions = c.versions; current = c.current }) w

pub supersede-IsValid :
    (tenant : Text) (now : ℕ) (t : Table) → IsValid t → IsValid (supersede tenant now t)
unfolding supersede
supersede-IsValid tenant now t w =
    Pairwise-update_where Compatible (is_current_of tenant) (superseded_now now) t
      (λ k l c. record { ids = c.ids; kids = c.kids; versions = c.versions; current = λ e h. cc })
      (λ k l c. record { ids = c.ids; kids = c.kids; versions = c.versions; current = λ e h. refl })
      w

pub deactivate_all-IsValid :
    (now : ℕ) (ks : List TenantKey) (t : Table) → IsValid t → IsValid (deactivate_all now ks t)
unfolding deactivate_all
deactivate_all-IsValid now [] t w = w
deactivate_all-IsValid now (k ∷ ks) t w =
    deactivate_all-IsValid now ks (deactivate now k.id t) (deactivate-IsValid now k.id t w)

pub no_clash :
    (row : TenantKey) (t : Table)
    → any (clashes row) t ≡ false
    → All (λ k. (k.id ≢ row.id) × (k.kid ≢ row.kid)) t
no_clash row [] h = tt
no_clash row (k ∷ t) h = (
  (ground (arith, ==_of_eq k.id row.id), ground (arith, ==_of_eq k.kid row.kid)),
  no_clash row t (ground arith),
)

-- The highest version is one.
pub highest_version_bound :
    (tenant : Text) (t : Table)
    → All (λ k. k.tenant_id ≡ tenant → k.key_version ≤ or_else (highest_version tenant t) 0) t
unfolding highest_version
highest_version_bound tenant [] = tt
highest_version_bound tenant (k ∷ t) = (
  λ e. ground (arith, ==_of_eq k.tenant_id tenant e),
  All-imp (λ l. l.tenant_id ≡ tenant → l.key_version ≤ or_else (highest_version tenant t) 0) _ t
      (λ l h e. ground (arith, h e)) (highest_version_bound tenant t),
)

-- After the first step of a rotation no key of the tenant is current.
pub none_current :
    (tenant : Text) (now : ℕ) (t : Table)
    → All (λ k. k.tenant_id ≡ tenant → k.is_current ≡ false) (supersede tenant now t)
unfolding supersede
none_current tenant now [] = tt
none_current tenant now (k ∷ t) =
    (λ e. ground (arith, ==_of_eq k.tenant_id tenant), none_current tenant now t)

-- The new key agrees with every row that the first step left.
save-IsValid :
    (row : TenantKey) (t : Table)
    → All (λ k. k.tenant_id ≡ row.tenant_id → k.is_current ≡ false) t
    → All (λ k. k.tenant_id ≡ row.tenant_id → k.key_version ≢ row.key_version) t
    → IsValid t
    → IsValid (save row t).1
unfolding save
save-IsValid row t idle old w = elim (Bool-cases (any (clashes row) t)) [
  | inl bad ↦ rw bad w
  | inr fine ↦
      rw fine (Pairwise-append_one Compatible t row w (together t idle old (no_clash row t fine)))
]
  where
    together :
        (t : Table)
        → All (λ k. k.tenant_id ≡ row.tenant_id → k.is_current ≡ false) t
        → All (λ k. k.tenant_id ≡ row.tenant_id → k.key_version ≢ row.key_version) t
        → All (λ k. (k.id ≢ row.id) × (k.kid ≢ row.kid)) t
        → All (λ k. Compatible k row) t
    together [] idle old fine = tt
    together (k ∷ t) idle old fine = (
      record {
        ids = fine.0.0;
        kids = fine.0.1;
        versions = old.0;
        current = λ e h. let off = idle.0 e in cc;
      },
      together t idle.1 old.1 fine.1,
    )

module _ (sha256_hex : Text → Text) (tenant : Text) (fresh : Fresh) (t : Table) where
  -- The new version is above each version of the tenant.
  next_is_new :
      All
        (λ k.
          k.tenant_id ≡ tenant → k.key_version ≢ (next_key sha256_hex tenant fresh t).key_version)
        t
  unfolding new_key
  next_is_new =
      All-imp (λ k. k.tenant_id ≡ tenant → k.key_version ≤ or_else (highest_version tenant t) 0) _ t
        (λ k h e same. let below = h e in absurd (omega arith)) (highest_version_bound tenant t)

enforce_max_keys-IsValid :
    (max_keys : Parsed) (tenant : Text) (now : ℕ) (t : Table)
    → IsValid t
    → IsValid (enforce_max_keys max_keys tenant now t)
unfolding enforce_max_keys
enforce_max_keys-IsValid max_keys tenant now t w =
    let keys = oldest_first (filter (is_active tenant) t) in
    deactivate_all-IsValid now (take (surplus max_keys (length keys)) keys) t w

module _ (sha256_hex : Text → Text) (max_keys : Parsed) (tenant : Text) (fresh : Fresh)
    (now later : ℕ) where
  finish-IsValid :
      (saved : Result TenantKey × Table)
      → IsValid saved.1
      → IsValid (finish sha256_hex max_keys tenant later saved).1
  finish-IsValid (ok key, t) w = enforce_max_keys-IsValid max_keys tenant later t w
  finish-IsValid (err e, t) w = w

  -- A rotation keeps the table valid, whether it succeeds, finds no current key, or fails to save.
  pub rotate_key-IsValid :
      (t : Table) → IsValid t → IsValid (rotate_key sha256_hex max_keys tenant fresh now later t).1
  unfolding rotate_key new_key
  rotate_key-IsValid t w = elim (Bool-cases (any (is_current_of tenant) t)) [
    | inr none_left ↦ rw none_left w
    | inl found ↦
        let t' = supersede tenant now t in
        rw found (
          finish-IsValid (save (next_key sha256_hex tenant fresh t') t') (
            save-IsValid (next_key sha256_hex tenant fresh t') t' (none_current tenant now t)
              (next_is_new sha256_hex tenant fresh t') (supersede-IsValid tenant now t w)))
  ]
