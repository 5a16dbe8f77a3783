-- ===== src/TenantBits.antt =====
-- srv/src/services/tenant-bits.service.ts over the rows of srv/src/entity/tenant-bits.entity.ts. The id
-- of a new row is drawn by the caller.
pub mod Store
pub mod Refinement
mod Tests
use identity_ghost.Prelude.{
  Bool, true, false, ◌&&◌, ◌||◌, not, Option, none, some, List, [], ◌∷◌, ◌++◌, if◌then◌else◌,
  is_some, filter, find, update_where, any, Text, ◌==◌,
}
use identity_ghost.Errors.{Result, ok, err, internal}
use identity_ghost.Client.{Tenant}

-- The tenant that a value is about, the tenant that owns it, and its key.
pub record Slot : Type 0 where
  pub tenant_id : Text
  pub owner_tenant_id : Text
  pub key : Text

pub record TenantBits : Type 0 where
  pub id : Text
  pub slot : Slot
  pub value : Text

abbrev pub Table : Type 0
Table = List TenantBits

abbrev pub same_slot : Slot → Slot → Bool
same_slot s r =
    r.tenant_id == s.tenant_id && r.owner_tenant_id == s.owner_tenant_id && r.key == s.key

-- `where: {tenant: {id}, ownerTenant: {id}, key}`
abbrev pub is_at : Slot → TenantBits → Bool
is_at s r = same_slot s r.slot

-- `findOneByOrFail({id})` finds the tenant.
abbrev pub has_tenant : List Tenant → Text → Bool
has_tenant tenants id = any (λ t. t.id == id) tenants

-- `save` of a new row: the primary key, and the unique constraint on the slot.
unfoldable pub insert : TenantBits → Table → Result TenantBits × Table
insert row t =
    if any (λ r. r.id == row.id || is_at row.slot r) t
    then (err internal, t)
    else (ok row, t ++ row ∷ [])

-- `save` of a loaded row.
unfoldable pub overwrite : TenantBits → Text → Table → Result TenantBits × Table
overwrite kv value t =
    let row = record kv { value = value } in
    (ok row, update_where (λ r. r.id == kv.id) (λ _. row) t)

unfoldable pub add_or_update_key :
    List Tenant → Text → Slot → Text → Table → Result TenantBits × Table
unfolding insert overwrite
add_or_update_key tenants id slot value t =
    if not (has_tenant tenants slot.tenant_id && has_tenant tenants slot.owner_tenant_id)
    then (err internal, t)
    else elim (find (is_at slot) t) [
      | some kv ↦ overwrite kv value t
      | none ↦ insert (record { id = id; slot = slot; value = value }) t
    ]

unfoldable pub delete_key : Slot → Table → Table
delete_key slot t = filter (λ r. not (is_at slot r)) t

unfoldable pub key_exists : Slot → Table → Bool
key_exists slot t = is_some (find (is_at slot) t)

unfoldable pub get_key_value : Slot → Table → Option Text
get_key_value slot t = elim (find (is_at slot) t) [ none ↦ none | some kv ↦ some kv.value ]
