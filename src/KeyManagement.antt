-- ===== src/KeyManagement.antt =====
-- srv/src/services/key-management.service.ts over the rows of srv/src/entity/tenant-key.entity.ts, with
-- srv/src/util/kid.util.ts. The key pair and the id of a new row are drawn by the caller (`Fresh`);
-- `sha256_hex` is the hash of the crypto library and `max_keys` the parsed setting. Times are milliseconds.
pub mod Rows
pub mod Loops
pub mod Limit
pub mod Rotated
pub mod Newest
pub mod Signing
pub mod Overlap
pub mod Cleanup
pub mod Jwks
mod Tests
use identity_ghost.Prelude.{
  ℕ, zero, suc, ◌+◌, ◌-◌, ◌*◌, ◌++◌, Bool, true, false, ◌&&◌, ◌||◌, not, Option, none, some, List,
  [], ◌∷◌, leb, ltb, if◌then◌else◌, is_some, or_else, filter, find, update_where, any, length, map,
  Text, ◌==◌, decimal, Parsed, not_a_number, negative, number,
}
use identity_ghost.Errors.{Result, ok, err, internal, not_found}

pub record TenantKey : Type 0 where
  pub id : Text
  pub tenant_id : Text
  pub key_version : ℕ
  pub kid : Text
  pub public_key : Text
  pub private_key : Text
  pub is_current : Bool
  pub superseded_at : Option ℕ
  pub deactivated_at : Option ℕ

abbrev pub Table : Type 0
Table = List TenantKey

-- What one call draws at random.
pub record Fresh : Type 0 where
  pub row_id : Text
  pub public_key : Text
  pub private_key : Text

-- `s.substring(0, n)` and `xs.slice(0, n)`
abbrev pub take {ℓ} : {A : Type ℓ} → ℕ → List A → List A
take zero xs = []
take (suc n) [] = []
take (suc n) (x ∷ xs) = x ∷ take n xs

abbrev pub is_current_of : Text → TenantKey → Bool
is_current_of tenant k = k.tenant_id == tenant && k.is_current

abbrev pub is_active : Text → TenantKey → Bool
is_active tenant k = k.tenant_id == tenant && not (is_some k.deactivated_at)

-- `where: {kid, tenantId, deactivatedAt: IsNull()}`
abbrev pub has_kid : Text → Text → TenantKey → Bool
has_kid kid tenant k = k.kid == kid && is_active tenant k

-- The private key and the kid.
unfoldable pub get_current_signing_key : Text → Table → Result (Text × Text)
get_current_signing_key tenant t = elim (find (is_current_of tenant) t) [
  | none ↦ err not_found
  | some k ↦ ok (k.private_key, k.kid)
]

unfoldable pub get_public_key_by_kid : Text → Text → Table → Result Text
get_public_key_by_kid kid tenant t = elim (find (has_kid kid tenant) t) [
  | none ↦ err not_found
  | some k ↦ ok k.public_key
]

-- `save` of a new row: the id is the primary key, and the kid is unique.
abbrev pub clashes : TenantKey → TenantKey → Bool
clashes row k = k.id == row.id || k.kid == row.kid

unfoldable pub save : TenantKey → Table → Result TenantKey × Table
save row t = if any (clashes row) t then (err internal, t) else (ok row, t ++ row ∷ [])

abbrev pub superseded_now : ℕ → TenantKey → TenantKey
superseded_now now k = record k { is_current = false; superseded_at = some now }

-- `UPDATE … SET is_current = false, superseded_at = now WHERE tenant_id = … AND is_current`
unfoldable pub supersede : Text → ℕ → Table → Table
supersede tenant now t = update_where (is_current_of tenant) (superseded_now now) t

abbrev pub higher : ℕ → Option ℕ → ℕ
higher v none = v
higher v (some w) = if ltb v w then w else v

-- The version of `findOne({where: {tenantId}, order: {keyVersion: 'DESC'}})`
unfoldable pub highest_version : Text → Table → Option ℕ
highest_version tenant [] = none
highest_version tenant (k ∷ t) =
    let rest = highest_version tenant t in
    if k.tenant_id == tenant then some (higher k.key_version rest) else rest

-- `order: {keyVersion: 'ASC'}`
abbrev pub insert : TenantKey → Table → Table
insert k [] = k ∷ []
insert k (l ∷ t) =
    let rest = insert k t in if leb k.key_version l.key_version then k ∷ l ∷ t else l ∷ rest

unfoldable pub oldest_first : Table → Table
oldest_first [] = []
oldest_first (k ∷ t) = insert k (oldest_first t)

abbrev pub deactivated : ℕ → TenantKey → TenantKey
deactivated now k = record k { deactivated_at = some now }

-- `update(id, {deactivatedAt: now})`
unfoldable pub deactivate : ℕ → Text → Table → Table
deactivate now id t = update_where (λ k. k.id == id) (deactivated now) t

unfoldable pub deactivate_all : ℕ → List TenantKey → Table → Table
unfolding deactivate
deactivate_all now [] t = t
deactivate_all now (k ∷ ks) t = deactivate_all now ks (deactivate now k.id t)

-- How many of `n` active keys `slice(0, n - maxKeys)` takes. A comparison with NaN fails, and past the
-- end of the array a slice stops.
abbrev pub surplus : Parsed → ℕ → ℕ
surplus (number m) n = n - m
surplus negative n = n
surplus not_a_number n = 0

unfoldable pub enforce_max_keys : Parsed → Text → ℕ → Table → Table
unfolding oldest_first deactivate_all
enforce_max_keys max_keys tenant now t =
    let keys = oldest_first (filter (is_active tenant) t) in
    deactivate_all now (take (surplus max_keys (length keys)) keys) t

abbrev pub is_superseded : TenantKey → Bool
is_superseded k = not k.is_current && is_some k.superseded_at && not (is_some k.deactivated_at)

-- Whether the overlap window has passed; with a setting that is no number the comparison fails.
unfoldable pub is_expired : Option ℕ → ℕ → Option ℕ → Bool
is_expired none now superseded_at = false
is_expired (some seconds) now none = false
is_expired (some seconds) now (some at) = ltb (at + seconds * 1000) now

-- The loop over the keys that the query found.
unfoldable pub deactivate_due : Option ℕ → ℕ → List TenantKey → Table → Table
unfolding deactivate is_expired
deactivate_due seconds now [] t = t
deactivate_due seconds now (k ∷ ks) t =
    deactivate_due seconds now ks
      (if is_expired seconds now k.superseded_at then deactivate now k.id t else t)

-- `seconds` is the parsed lifetime of tokens, which is not negative.
unfoldable pub deactivate_expired_keys : Option ℕ → ℕ → Table → Table
unfolding deactivate_due
deactivate_expired_keys seconds now t = deactivate_due seconds now (filter is_superseded t) t

module _ (sha256_hex : Text → Text) where
  -- `KidUtil.generate`
  unfoldable pub generate : Text → ℕ → Text
  unfolding decimal
  generate tenant version = take 16 (sha256_hex (tenant ++ b':' ∷ decimal version))

  unfoldable pub new_key : Text → ℕ → Fresh → TenantKey
  unfolding generate
  new_key tenant version fresh = record {
    id = fresh.row_id;
    tenant_id = tenant;
    key_version = version;
    kid = generate tenant version;
    public_key = fresh.public_key;
    private_key = fresh.private_key;
    is_current = true;
    superseded_at = none;
    deactivated_at = none;
  }

  unfoldable pub create_initial_key : Text → Fresh → Table → Result TenantKey × Table
  unfolding new_key save
  create_initial_key tenant fresh t = save (new_key tenant 1 fresh) t

  abbrev pub next_key : Text → Fresh → Table → TenantKey
  next_key tenant fresh t = new_key tenant (or_else (highest_version tenant t) 0 + 1) fresh

  module _ (max_keys : Parsed) where
    -- The last step, once the new key is saved; `later` is a later reading of the clock.
    abbrev pub finish : Text → ℕ → Result TenantKey × Table → Result TenantKey × Table
    finish tenant later (ok key, t) = (ok key, enforce_max_keys max_keys tenant later t)
    finish tenant later (err e, t) = (err e, t)

    -- The update affects no row exactly if no row is current.
    unfoldable pub rotate_key : Text → Fresh → ℕ → ℕ → Table → Result TenantKey × Table
    unfolding supersede save new_key highest_version enforce_max_keys
    rotate_key tenant fresh now later t =
        if not (any (is_current_of tenant) t)
        then (err not_found, t)
        else let t' = supersede tenant now t in
          finish tenant later (save (next_key tenant fresh t') t')
