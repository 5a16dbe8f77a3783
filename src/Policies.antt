-- ===== src/Policies.antt =====
-- srv/src/casl/policy-resolution.service.ts over the tables of `Directory`, and formatRoleNamesForToken of
-- srv/src/auth/token-issuance.service.ts. No query of the model throws, so nothing is caught; what a
-- policy allows is not read here.
pub mod Names
pub mod Owners
pub mod Agreement
pub mod Tests
use identity_ghost.Prelude.{
  Bool, true, false, ◌&&◌, not, Option, none, some, List, [], ◌∷◌, ◌++◌, if◌then◌else◌, filter,
  find, any, Text, ◌==◌, is_text, is_blank, map, eqb,
}
use identity_ghost.Directory.{App, Role, UserRole, Directory, LoadedRole, loaded, find_app}

-- The columns of a policy that the resolution reads.
pub record Policy : Type 0 where
  pub id : Text
  pub role_id : Text
  pub tenant_id : Text

pub record ParsedName : Type 0 where
  pub app_name : Text
  pub role_name : Text

-- What stands before and after the first `:`, by `indexOf` and `substring`.
unfoldable pub split_name : Text → Option ParsedName
split_name [] = none
split_name (c ∷ s) =
    let rest = split_name s in
    if eqb c b':'
    then some (record { app_name = []; role_name = s })
    else elim rest [ none ↦ none | some p ↦ some (record p { app_name = c ∷ p.app_name }) ]

abbrev both_given : ParsedName → Option ParsedName
both_given p = if is_blank p.app_name then none else if is_blank p.role_name then none else some p

unfoldable pub parse_app_owned_role_name : Text → Option ParsedName
unfolding split_name
parse_app_owned_role_name name = elim (split_name name) [ none ↦ none | some p ↦ both_given p ]

-- `formatRoleNamesForToken`, for one role and for all.
unfoldable pub format_role_name : LoadedRole → Text
format_role_name r = elim r.app [ none ↦ r.role.name | some a ↦ a.name ++ b':' ∷ r.role.name ]

abbrev pub format_role_names_for_token : List LoadedRole → List Text
format_role_names_for_token roles = map format_role_name roles

abbrev pub contains_colon : Text → Bool
contains_colon s = any (λ c. eqb c b':') s

-- `isAppOwnedRoleName`, `filterAppOwnedRoles`
abbrev pub is_app_owned_role_name : Text → Bool
is_app_owned_role_name name = contains_colon name

abbrev pub filter_app_owned_roles : List Text → List Text
filter_app_owned_roles names = filter is_app_owned_role_name names

abbrev pub is_role_of : App → Text → Role → Bool
is_role_of a name r = r.name == name && is_text r.app_id a.id && r.tenant_id == a.owner_id

unfoldable pub policies_of : List Policy → Text → Text → List Policy
policies_of policies role_id tenant_id =
    filter (λ p. p.role_id == role_id && p.tenant_id == tenant_id) policies

-- The policies for one name; a name that leads nowhere is skipped.
abbrev for_role : List Policy → App → Option Role → List Policy
for_role policies a none = []
for_role policies a (some r) = policies_of policies r.id a.owner_id

abbrev for_app : Directory → List Policy → Text → Option App → List Policy
for_app d policies name none = []
for_app d policies name (some a) = for_role policies a (find (is_role_of a name) d.roles)

abbrev for_parsed : Directory → List Policy → Option ParsedName → List Policy
for_parsed d policies none = []
for_parsed d policies (some p) =
    for_app d policies p.role_name (find (λ a. a.name == p.app_name) d.apps)

unfoldable pub resolve_app_owned_policies : Directory → List Policy → List Text → List Policy
unfolding parse_app_owned_role_name policies_of
resolve_app_owned_policies d policies [] = []
resolve_app_owned_policies d policies (name ∷ names) =
    for_parsed d policies (parse_app_owned_role_name name)
    ++ resolve_app_owned_policies d policies names

-- `where: {userId, tenantId}`
abbrev pub user_roles_of : Directory → Text → Text → List UserRole
user_roles_of d user_id tenant_id =
    filter (λ u. u.user_id == user_id && u.tenant_id == tenant_id) d.user_roles

-- A role that is found and belongs to an app.
abbrev app_owned : Directory → Option Role → Option LoadedRole
app_owned d none = none
app_owned d (some r) = elim (find_app d r.app_id) [
  | none ↦ none
  | some a ↦ some (record { role = r; app = some a })
]

abbrev pub app_owned_role : Directory → UserRole → Option LoadedRole
app_owned_role d u = app_owned d (find (λ r. r.id == u.role_id) d.roles)

abbrev for_loaded : List Policy → Option LoadedRole → List Policy
for_loaded policies none = []
for_loaded policies (some l) = policies_of policies l.role.id l.role.tenant_id

unfoldable pub resolve_each : Directory → List Policy → List UserRole → List Policy
unfolding policies_of
resolve_each d policies [] = []
resolve_each d policies (u ∷ us) =
    for_loaded policies (app_owned_role d u) ++ resolve_each d policies us

unfoldable pub resolve_app_owned_policies_for_user :
    Directory → List Policy → Text → Text → List Policy
unfolding resolve_each
resolve_app_owned_policies_for_user d policies user_id tenant_id =
    resolve_each d policies (user_roles_of d user_id tenant_id)

abbrev push_found : Option LoadedRole → List LoadedRole → List LoadedRole
push_found none ls = ls
push_found (some l) ls = l ∷ ls

unfoldable pub collect_each : Directory → List UserRole → List LoadedRole
collect_each d [] = []
collect_each d (u ∷ us) = push_found (app_owned_role d u) (collect_each d us)

unfoldable pub get_app_owned_roles_for_user : Directory → Text → Text → List LoadedRole
unfolding collect_each
get_app_owned_roles_for_user d user_id tenant_id =
    collect_each d (user_roles_of d user_id tenant_id)
