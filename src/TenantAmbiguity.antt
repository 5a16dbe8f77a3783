-- ===== src/TenantAmbiguity.antt =====
-- srv/src/auth/tenant-ambiguity.service.ts over the tables of `Directory`. Whatever throws inside, the answer is the
-- empty list; in the model only the look-up of the client can.
pub mod Sound
mod Tests
use identity_ghost.Prelude.{
  Bool, true, false, ◌&&◌, ◌||◌, not, Option, none, some, List, [], ◌∷◌, if◌then◌else◌, filter,
  find, any, map, Text, ◌==◌, includes,
}
use identity_ghost.Errors.{Result, ok, err}
use identity_ghost.Client.{Client, Table, Tenant, find_by_client_id_or_alias}
use identity_ghost.Directory.{App, TenantMember, Subscription, Directory, is_success}

-- `where: {client: {id: client.id}}`
abbrev pub app_of : Directory → Client → Option App
app_of d c = find (λ a. a.client_id == c.id) d.apps

abbrev pub subscribed_ids : Directory → App → List Text
subscribed_ids d app =
    map (λ s. s.subscriber_id)
      (filter (λ s. s.app_id == app.id && is_success s.status) d.subscriptions)

abbrev pub fits : App → List Text → Tenant → Bool
fits app ids t = not (t.id == app.owner_id) && includes ids t.id

abbrev pub push_if : App → List Text → Option Tenant → List Tenant → List Tenant
push_if app ids none rest = rest
push_if app ids (some t) rest = if fits app ids t then t ∷ rest else rest

-- The loop over the memberships.
unfoldable pub collect : Directory → App → List Text → List TenantMember → List Tenant
collect d app ids [] = []
collect d app ids (m ∷ ms) =
    push_if app ids (find (λ t. t.id == m.tenant_id) d.tenants) (collect d app ids ms)

abbrev pub for_app : Directory → Text → Option App → List Tenant
for_app d user_id none = []
for_app d user_id (some app) =
    collect d app (subscribed_ids d app) (filter (λ m. m.user_id == user_id) d.members)

abbrev pub for_client : Directory → Text → Result Client → List Tenant
for_client d user_id (err e) = []
for_client d user_id (ok c) = for_app d user_id (app_of d c)

unfoldable pub find_subscriber_tenants : Directory → Table → Text → Text → List Tenant
unfolding collect find_by_client_id_or_alias
find_subscriber_tenants d clients user_id client_id =
    for_client d user_id (find_by_client_id_or_alias client_id clients)

abbrev pub is_hinted : Text → Tenant → Bool
is_hinted hint t = t.domain == hint || t.id == hint

unfoldable pub validate_hint : Directory → Table → Text → Text → Text → Bool
unfolding find_subscriber_tenants
validate_hint d clients user_id client_id hint =
    any (is_hinted hint) (find_subscriber_tenants d clients user_id client_id)

unfoldable pub resolve_hint : Directory → Table → Text → Text → Text → Option Tenant
unfolding find_subscriber_tenants
resolve_hint d clients user_id client_id hint =
    find (is_hinted hint) (find_subscriber_tenants d clients user_id client_id)
