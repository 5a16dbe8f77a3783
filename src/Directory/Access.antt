-- ===== src/Directory/Access.antt =====
-- Who may be given a token, by the tables.
use identity_ghost.Prelude.{
  ◌≡◌, true, Option, none, some, List, [], ◌∷◌, arith, Text, Bool-cases, Option-cases, inl, inr,
  filter, find, find-test, ◌==◌, eq_of_==, All,
}
use identity_ghost.Errors.{ok, bind-eq-ok, ok-injective}
use identity_ghost.Client.{Tenant}
use identity_ghost.Directory.{
  User, find_user, Directory, LoadedRole, resolved, find_tenant, find_by_domain, is_member,
  find_by_membership, can_login_to_tenant, logs_in_from, pick_tenant, resolve_hinted,
  resolve_subscription_tenant_ambiguity, get_member_roles,
}

pub find_tenant-id : (d : Directory) (id : Text) {t : Tenant} → find_tenant d id ≡ ok t → t.id ≡ id
find_tenant-id d id {t} h = elim (Option-cases (find (λ (u : Tenant). u.id == id) d.tenants)) [
  | inl gone ↦ let bad = rw gone at h in cc
  | inr (u, found) ↦
      let same = ok-injective (rw found at h) in
      eq_of_== t.id id
        (ground (arith, find-test (λ (u : Tenant). u.id == id) d.tenants found, same))
]

pub find_user-id : (d : Directory) (id : Text) {u : User} → find_user d id ≡ ok u → u.id ≡ id
find_user-id d id {u} h = elim (Option-cases (find (λ (v : User). v.id == id) d.users)) [
  | inl gone ↦ let bad = rw gone at h in cc
  | inr (v, found) ↦
      let same = ok-injective (rw found at h) in
      eq_of_== u.id id (ground (arith, find-test (λ (v : User). v.id == id) d.users found, same))
]

-- Roles are read for members only.
pub get_member_roles-eq-ok :
    (d : Directory) (tenant_id user_id : Text) {roles : List LoadedRole}
    → get_member_roles d tenant_id user_id ≡ ok roles
    → is_member d tenant_id user_id ≡ true
unfolding get_member_roles
get_member_roles-eq-ok d tenant_id user_id h =
    let (t, found, rest) = bind-eq-ok (find_tenant d tenant_id) _ h in
    let same = find_tenant-id d tenant_id found in
    elim (Bool-cases (is_member d t.id user_id)) [
      | inl member ↦ rw same at member
      | inr other ↦ let bad = rw other at rest in cc
    ]

picked-logs_in :
    (d : Directory) (owner : Text) (ts : List Tenant) {t : Tenant}
    → pick_tenant (filter (logs_in_from d owner) ts) ≡ resolved t
    → can_login_to_tenant d t.id owner ≡ true
picked-logs_in d owner ts {t} h = go (filter (logs_in_from d owner) ts) (passed ts) h
  where
    passed :
        (us : List Tenant)
        → All (λ u. logs_in_from d owner u ≡ true) (filter (logs_in_from d owner) us)
    passed [] = tt
    passed (u ∷ us) = elim (Bool-cases (logs_in_from d owner u)) [
      | inl kept ↦ rw kept (kept, passed us)
      | inr gone ↦ rw gone (passed us)
    ]

    go :
        (us : List Tenant)
        → All (λ u. logs_in_from d owner u ≡ true) us
        → pick_tenant us ≡ resolved t
        → can_login_to_tenant d t.id owner ≡ true
    go [] k e = cc
    go (u ∷ []) k e = let test = k.0 in ground arith
    go (u ∷ v ∷ us) k e = cc

-- A tenant that is resolved has a successful subscription to an app of the owner.
pub resolved_can_login :
    (d : Directory) (user_id owner : Text) (hint : Option Text) {t : Tenant}
    → resolve_subscription_tenant_ambiguity d user_id owner hint ≡ ok (resolved t)
    → can_login_to_tenant d t.id owner ≡ true
unfolding resolve_subscription_tenant_ambiguity
resolved_can_login d user_id owner none {t} h =
    picked-logs_in d owner (find_by_membership d user_id) (ok-injective h)
resolved_can_login d user_id owner (some domain) {t} h =
    let (u, found, rest) = bind-eq-ok (find_by_domain d domain) (resolve_hinted d owner) h in
    elim (Bool-cases (can_login_to_tenant d u.id owner)) [
      | inl may ↦ let e = rw may at rest in ground (arith, may, e)
      | inr not_so ↦ let bad = rw not_so at rest in cc
    ]
