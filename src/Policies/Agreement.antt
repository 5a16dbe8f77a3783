-- ===== src/Policies/Agreement.antt =====
-- The policies that a token leads to, against those that the rows of its user lead to.
use identity_ghost.Prelude.{
  ◌≡◌, refl, ap, ◌∙◌, sym, false, some, List, [], ◌∷◌, ◌++◌, find, Text, ◌==◌, is_blank, All,
  Option-cases, inl, inr,
}
use identity_ghost.Directory.{App, UserRole, Directory, LoadedRole}
use identity_ghost.Policies.{
  Policy, format_role_names_for_token, contains_colon, is_role_of, policies_of,
  resolve_app_owned_policies, user_roles_of, app_owned_role, resolve_each,
  resolve_app_owned_policies_for_user, collect_each, get_app_owned_roles_for_user,
}
use identity_ghost.Policies.Names.{parse-format_role_name}

-- A role of an app as the onboarding makes it: in the tenant that owns the app, with names that are not
-- empty, no colon in the name of the app, and no other app or role by these names.
pub record IsRegular (d : Directory) (l : LoadedRole) : Type 0 where
  pub app : App
  pub owned : l.app ≡ some app
  pub plain : contains_colon app.name ≡ false
  pub app_named : is_blank app.name ≡ false
  pub role_named : is_blank l.role.name ≡ false
  pub only_app : find (λ a. a.name == app.name) d.apps ≡ some app
  pub only_role : find (is_role_of app l.role.name) d.roles ≡ some l.role
  pub in_owner : l.role.tenant_id ≡ app.owner_id

resolve_each-collect_each :
    (d : Directory) (policies : List Policy) (us : List UserRole)
    → All (IsRegular d) (collect_each d us)
    → resolve_app_owned_policies d policies (format_role_names_for_token (collect_each d us))
      ≡ resolve_each d policies us
unfolding resolve_app_owned_policies resolve_each collect_each
resolve_each-collect_each d policies [] h = refl
resolve_each-collect_each d policies (u ∷ us) h = elim (Option-cases (app_owned_role d u)) [
  | inl other ↦
      rw (other, collect_each, resolve_each)
        (resolve_each-collect_each d policies us (rw (other, collect_each) at h))
  | inr (l, found) ↦
      let k = rw (found, collect_each) at h in
      let one = k.0 in
      rw (found, collect_each, resolve_each)
        (rw
          (
            parse-format_role_name l one.owned one.plain one.app_named one.role_named,
            resolve_app_owned_policies,
          )
          (rw (one.only_app, one.only_role)
            (ap
                (λ t.
                  policies_of policies l.role.id t
                  ++ resolve_app_owned_policies d policies
                      (format_role_names_for_token (collect_each d us)))
                (sym one.in_owner)
              ∙ ap (λ ps. policies_of policies l.role.id l.role.tenant_id ++ ps)
                  (resolve_each-collect_each d policies us k.1))))
]

-- For a user whose roles of apps are regular, the names that a token carries lead to the same policies,
-- in the same order, as the rows of the user do.
pub resolve_app_owned_policies-for_user :
    (d : Directory) (policies : List Policy) (user_id tenant_id : Text)
    → All (IsRegular d) (get_app_owned_roles_for_user d user_id tenant_id)
    → resolve_app_owned_policies d policies
        (format_role_names_for_token (get_app_owned_roles_for_user d user_id tenant_id))
      ≡ resolve_app_owned_policies_for_user d policies user_id tenant_id
unfolding get_app_owned_roles_for_user resolve_app_owned_policies_for_user
resolve_app_owned_policies-for_user d policies user_id tenant_id h =
    resolve_each-collect_each d policies (user_roles_of d user_id tenant_id) h
