-- ===== src/Directory.antt =====
-- The rows of users, tenants, members, apps, subscriptions and roles (srv/src/entity), and the queries on
-- them of srv/src/services/tenant.service.ts, role.service.ts and subscription.service.ts that tokens
-- are issued by. The permission of token issuance may read every row, so the checks on it always pass.
pub mod Access
use identity_ghost.Prelude.{
  Bool, true, false, ◌&&◌, ◌||◌, not, Option, none, some, List, [], ◌∷◌, if◌then◌else◌, filter,
  find, any, Text, ◌==◌, is_text, map,
}
use identity_ghost.Errors.{Result, ok, err, ◌>>=◌, or_throw, internal, not_found, forbidden}
use identity_ghost.Client.{Tenant}

pub record User : Type 0 where
  pub id : Text
  pub email : Text
  pub name : Text
  pub password : Text
  pub verified : Bool
  pub locked : Bool

pub record TenantMember : Type 0 where
  pub tenant_id : Text
  pub user_id : Text

pub record App : Type 0 where
  pub id : Text
  pub name : Text
  pub owner_id : Text
  pub client_id : Text
  pub onboarding_enabled : Bool
  pub onboarding_callback_url : Option Text
  pub app_url : Text

pub data SubscriptionStatus : Type 0 where
  success pending canceled failed : SubscriptionStatus

pub record Subscription : Type 0 where
  pub id : Text
  pub subscriber_id : Text
  pub app_id : Text
  pub status : SubscriptionStatus
  pub message : Option Text

pub record Role : Type 0 where
  pub id : Text
  pub name : Text
  pub tenant_id : Text
  pub app_id : Option Text

pub record UserRole : Type 0 where
  pub tenant_id : Text
  pub user_id : Text
  pub role_id : Text

-- The tables that the issue of a token reads.
pub record Directory : Type 0 where
  pub users : List User
  pub tenants : List Tenant
  pub members : List TenantMember
  pub apps : List App
  pub subscriptions : List Subscription
  pub roles : List Role
  pub user_roles : List UserRole

abbrev pub is_success : SubscriptionStatus → Bool
is_success success = true
is_success _ = false

-- `UsersService.findById`
abbrev pub find_user : Directory → Text → Result User
find_user d id = or_throw (find (λ u. u.id == id) d.users) not_found

-- `TenantService.findById` and `findByDomain`
abbrev pub find_tenant : Directory → Text → Result Tenant
find_tenant d id = or_throw (find (λ t. t.id == id) d.tenants) not_found

abbrev pub find_by_domain : Directory → Text → Result Tenant
find_by_domain d domain = or_throw (find (λ t. t.domain == domain) d.tenants) not_found

unfoldable pub is_member : Directory → Text → Text → Bool
is_member d tenant_id user_id =
    any (λ m. m.tenant_id == tenant_id && m.user_id == user_id) d.members

-- `findByMembership`
unfoldable pub find_by_membership : Directory → Text → List Tenant
unfolding is_member
find_by_membership d user_id = filter (λ t. is_member d t.id user_id) d.tenants

unfoldable pub has_valid_subscription : Directory → Text → App → Bool
has_valid_subscription d tenant_id app =
    any (λ s. s.subscriber_id == tenant_id && s.app_id == app.id && is_success s.status)
      d.subscriptions

unfoldable pub can_login_to_tenant : Directory → Text → Text → Bool
unfolding has_valid_subscription
can_login_to_tenant d logging_tenant owner =
    any (has_valid_subscription d logging_tenant) (filter (λ a. a.owner_id == owner) d.apps)

-- The test of both loops over the tenants of a user.
abbrev pub logs_in_from : Directory → Text → Tenant → Bool
logs_in_from d owner t = not (t.id == owner) && can_login_to_tenant d t.id owner

unfoldable pub is_user_subscribed_to_tenant : Directory → Text → Text → Bool
unfolding find_by_membership can_login_to_tenant
is_user_subscribed_to_tenant d user_id owner =
    any (logs_in_from d owner) (find_by_membership d user_id)

-- The result of `resolveSubscriptionTenantAmbiguity`; `unresolved` is the empty object.
pub data Resolution : Type 0 where
  unresolved : Resolution
  resolved : Tenant → Resolution
  ambiguous : List Tenant → Resolution

abbrev pub pick_tenant : List Tenant → Resolution
pick_tenant [] = unresolved
pick_tenant (t ∷ []) = resolved t
pick_tenant (t ∷ u ∷ ts) = ambiguous (t ∷ u ∷ ts)

abbrev pub resolve_hinted : Directory → Text → Tenant → Result Resolution
resolve_hinted d owner t =
    if can_login_to_tenant d t.id owner then ok (resolved t) else err internal

unfoldable pub resolve_subscription_tenant_ambiguity :
    Directory → Text → Text → Option Text → Result Resolution
unfolding find_by_membership can_login_to_tenant
resolve_subscription_tenant_ambiguity d user_id owner hint = elim hint [
  | none ↦ ok (pick_tenant (filter (logs_in_from d owner) (find_by_membership d user_id)))
  | some domain ↦ find_by_domain d domain >>= resolve_hinted d owner
]

-- A role with the app that it belongs to.
pub record LoadedRole : Type 0 where
  pub role : Role
  pub app : Option App

abbrev pub find_app : Directory → Option Text → Option App
find_app d none = none
find_app d (some id) = find (λ a. a.id == id) d.apps

abbrev pub loaded : Directory → Role → LoadedRole
loaded d r = record { role = r; app = find_app d r.app_id }

-- `RoleService.getMemberRoles`: the join goes through `user_roles` with the tenant of the role.
abbrev pub assigned : Directory → Text → Role → Bool
assigned d user_id r =
    any (λ a. a.role_id == r.id && a.tenant_id == r.tenant_id && a.user_id == user_id) d.user_roles

-- `TenantService.getMemberRoles`
unfoldable pub get_member_roles : Directory → Text → Text → Result (List LoadedRole)
unfolding is_member
get_member_roles d tenant_id user_id = find_tenant d tenant_id >>= λ t.
    if not (is_member d t.id user_id)
    then err forbidden
    else ok (map (loaded d) (filter (λ r. r.tenant_id == t.id && assigned d user_id r) d.roles))
