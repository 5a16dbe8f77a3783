-- ===== src/TenantBits/Refinement.antt =====
-- The operations on the table as operations on the map, for one call and for any run of calls.
use mathlib.Core.Path.{fun_ext}
use identity_ghost.Prelude.{
  ◌≡◌, ◌≢◌, refl, ap, ◌∙◌, Bool, true, false, ◌&&◌, ◌||◌, not, none, some, List, [], ◌∷◌, arith,
  if◌then◌else◌, is_some, find, find-test, any, Text, ◌==◌, eq_of_==, Bool-cases, Option-cases, inl,
  inr, All, Pairwise-append_one,
}
use identity_ghost.Errors.{Result, is_ok}
use identity_ghost.Client.{Tenant}
use identity_ghost.TenantBits.{
  Slot, TenantBits, Table, is_at, has_tenant, insert, overwrite, add_or_update_key, delete_key,
  key_exists, get_key_value,
}
use identity_ghost.TenantBits.Store.{
  Map, put, contents, IsValid, eq_of_same_slot, same_slot_refl, contents-append_one,
  contents-overwritten, contents-delete_key, overwritten-IsValid, no_clash, filter-IsValid,
}

abbrev Refines : Slot → Text → Table → Result TenantBits × Table → Type 0
Refines slot value t after =
    IsValid after.1
    × (contents after.1
        ≡ (if is_ok after.0 then put slot (some value) (contents t) else contents t))

insert-Refines :
    (row : TenantBits) (t : Table) → IsValid t → Refines row.slot row.value t (insert row t)
unfolding insert
insert-Refines row t w = elim (Bool-cases (any (λ r. r.id == row.id || is_at row.slot r) t)) [
  | inl clash ↦ rw clash (w, refl)
  | inr free ↦
      let apart = no_clash row t free in
      rw free (
        Pairwise-append_one (λ (r s : TenantBits). r.id ≢ s.id) t row w apart.0,
        fun_ext (contents-append_one row t apart.1),
      )
]

overwrite-Refines :
    (slot : Slot) (kv : TenantBits) (value : Text) (t : Table)
    → IsValid t
    → find (is_at slot) t ≡ some kv
    → Refines slot value t (overwrite kv value t)
unfolding overwrite
overwrite-Refines slot kv value t w found =
    let e : kv.slot ≡ slot = eq_of_same_slot slot kv.slot (find-test (is_at slot) t found) in
    (
      overwritten-IsValid kv value t w,
      fun_ext (contents-overwritten kv value t w (ap (λ s. find (is_at s) t) e ∙ found))
          ∙ ap (λ s. put s (some value) (contents t)) e,
    )

add_or_update_key-Refines :
    (tenants : List Tenant) (id : Text) (slot : Slot) (value : Text) (t : Table)
    → IsValid t
    → Refines slot value t (add_or_update_key tenants id slot value t)
unfolding add_or_update_key
add_or_update_key-Refines tenants id slot value t w =
    elim (Bool-cases
      (has_tenant tenants slot.tenant_id && has_tenant tenants slot.owner_tenant_id)) [
        | inr unknown ↦ rw unknown (w, refl)
        | inl known ↦ elim (Option-cases (find (is_at slot) t)) [
          | inl free ↦
              rw (known, free, add_or_update_key)
                (insert-Refines (record { id = id; slot = slot; value = value }) t w)
          | inr (kv, found) ↦
              rw (known, found, add_or_update_key) (overwrite-Refines slot kv value t w found)
        ]
      ]

delete_key_refines :
    (s : Slot) (t : Table)
    → IsValid t
    → IsValid (delete_key s t) × (contents (delete_key s t) ≡ put s none (contents t))
unfolding delete_key
delete_key_refines s t w =
    (filter-IsValid (λ r. not (is_at s r)) t w, fun_ext (contents-delete_key s t))

-- A call that writes; `add` carries the id that the database draws.
pub data Call : Type 0 where
  add : Text → Slot → Text → Call
  delete : Slot → Call

-- The table after the calls, and for each whether it returned.
unfoldable pub run : List Tenant → List Call → Table → Table × List Bool
run tenants [] t = (t, [])
run tenants (add id slot value ∷ calls) t =
    let (r, t') = add_or_update_key tenants id slot value t in
    let (end, outcomes) = run tenants calls t' in (end, is_ok r ∷ outcomes)
run tenants (delete slot ∷ calls) t =
    let (end, outcomes) = run tenants calls (delete_key slot t) in (end, true ∷ outcomes)

-- The same calls on the map: one that failed changes nothing.
abbrev pub replay : List Call → List Bool → Map → Map
replay [] outcomes m = m
replay (c ∷ calls) [] m = m
replay (add id slot value ∷ calls) (returned ∷ outcomes) m =
    replay calls outcomes (if returned then put slot (some value) m else m)
replay (delete slot ∷ calls) (returned ∷ outcomes) m = replay calls outcomes (put slot none m)

-- Whatever calls are made on a table with unique ids, reading it afterwards is reading the map on which
-- the same calls were made, a failed call leaving the map alone; ids stay unique.
pub run_refines :
    (tenants : List Tenant) (calls : List Call) (t : Table)
    → IsValid t
    → let (end, outcomes) = run tenants calls t in
      IsValid end × (contents end ≡ replay calls outcomes (contents t))
unfolding run
run_refines tenants [] t w = (w, refl)
run_refines tenants (add id slot value ∷ calls) t w =
    let (r, t') = add_or_update_key tenants id slot value t in
    let step = add_or_update_key-Refines tenants id slot value t w in
    let rest = run_refines tenants calls t' step.0 in
    (rest.0, rest.1 ∙ ap (λ m. replay calls (run tenants calls t').1 m) step.1)
run_refines tenants (delete slot ∷ calls) t w =
    let step = delete_key_refines slot t w in
    let rest = run_refines tenants calls (delete_key slot t) step.0 in
    (rest.0, rest.1 ∙ ap (λ m. replay calls (run tenants calls (delete_key slot t)).1 m) step.1)

-- `keyExists` is true exactly where the map has a value.
key_exists-contents : (s : Slot) (t : Table) → key_exists s t ≡ is_some (contents t s)
unfolding key_exists get_key_value
key_exists-contents s t = elim (Option-cases (find (is_at s) t)) [
  | inl gone ↦ rw (gone, get_key_value) refl
  | inr (kv, found) ↦ rw (found, get_key_value) refl
]

any-fresh :
    (id : Text) (slot : Slot) (t : Table)
    → All (λ r. r.id ≢ id) t
    → find (is_at slot) t ≡ none
    → any (λ r. r.id == id || is_at slot r) t ≡ false
any-fresh id slot [] h free = refl
any-fresh id slot (r ∷ t) h free =
    let other = h.0 in
    ground (arith, any-fresh id slot t h.1, λ (e : (r.id == id) ≡ true). other (eq_of_== r.id id e))

-- With both tenants known and an id that no row has, a write succeeds whether the key is there or not,
-- and the value is read back.
pub get_key_value-add_or_update_key :
    (tenants : List Tenant) (id : Text) (slot : Slot) (value : Text) (t : Table)
    → IsValid t
    → has_tenant tenants slot.tenant_id ≡ true
    → has_tenant tenants slot.owner_tenant_id ≡ true
    → All (λ r. r.id ≢ id) t
    → (is_ok (add_or_update_key tenants id slot value t).0 ≡ true)
      × (get_key_value slot (add_or_update_key tenants id slot value t).1 ≡ some value)
unfolding add_or_update_key
get_key_value-add_or_update_key tenants id slot value t w known owner fresh =
    let returned = returns in
    let refined = (add_or_update_key-Refines tenants id slot value t w).1 in
    (
      returned,
      ap (λ m. m slot) refined
          ∙ rw returned (ap (λ b. if b then some value else contents t slot) (same_slot_refl slot)),
    )
  where
    returns : is_ok (add_or_update_key tenants id slot value t).0 ≡ true
    returns = elim (Option-cases (find (is_at slot) t)) [
      | inl free ↦
          rw (add_or_update_key, known, owner, free, insert, any-fresh id slot t fresh free) refl
      | inr (kv, found) ↦ rw (add_or_update_key, known, owner, found, overwrite) refl
    ]
