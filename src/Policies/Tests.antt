-- ===== src/Policies/Tests.antt =====
-- A user of a tenant with one role of an app that another tenant owns.
use identity_ghost.Prelude.{
  ◌≡◌, refl, true, false, none, some, List, [], ◌∷◌, All, text, Text-discrete,
}
use identity_ghost.Client.{Tenant}
use identity_ghost.Directory.{User, App, success, Role, Directory, LoadedRole}
use identity_ghost.Policies.{
  Policy, format_role_name, format_role_names_for_token, resolve_app_owned_policies,
  resolve_app_owned_policies_for_user, get_app_owned_roles_for_user,
}
use identity_ghost.Policies.Owners.{IsOwned, resolve_app_owned_policies-IsOwned}
use identity_ghost.Policies.Agreement.{IsRegular, resolve_app_owned_policies-for_user}

abbrev pub owner : Tenant
owner = record { id = text "o"; domain = text "o.com"; skip_session_confirm = false }

abbrev pub guest : Tenant
guest = record { id = text "g"; domain = text "g.com"; skip_session_confirm = false }

abbrev pub ann : User
ann = record {
  id = text "u";
  email = text "ann@g.com";
  name = text "Ann";
  password = text "argon";
  verified = true;
  locked = false;
}

abbrev shop : App
shop = record {
  id = text "a";
  name = text "shop";
  owner_id = text "o";
  client_id = text "c";
  onboarding_enabled = false;
  onboarding_callback_url = none;
  app_url = text "https://shop";
}

abbrev seller : Role
seller = record {
  id = text "r";
  name = text "seller";
  tenant_id = text "o";
  app_id = some (text "a");
}

-- `ann` is a member of the guest tenant, which has subscribed to the owner's app.
abbrev pub directory : Directory
directory = record {
  users = ann ∷ [];
  tenants = owner ∷ guest ∷ [];
  members = record { tenant_id = text "g"; user_id = text "u" } ∷ [];
  apps = shop ∷ [];
  subscriptions =
      record {
        id = text "s";
        subscriber_id = text "g";
        app_id = text "a";
        status = success;
        message = none;
      }
      ∷ [];
  roles = seller ∷ [];
  user_roles = record { tenant_id = text "g"; user_id = text "u"; role_id = text "r" } ∷ [];
}

abbrev policies : List Policy
policies = record { id = text "p"; role_id = text "r"; tenant_id = text "o" } ∷ []

abbrev loaded_seller : LoadedRole
loaded_seller = record { role = seller; app = some shop }

named : format_role_name loaded_seller ≡ text "shop:seller"
unfolding format_role_name
named = refl

resolves :
    resolve_app_owned_policies directory policies (text "shop:seller" ∷ text "none" ∷ []) ≡ policies
unfolding resolve_app_owned_policies Text-discrete
resolves = refl

abbrev colon_role : LoadedRole
colon_role = record { role = seller; app = some (record shop { name = text "shop:eu" }) }

resolve_app_owned_policies-IsOwned_example :
    All
      (IsOwned directory policies (text "shop:seller" ∷ []))
      (resolve_app_owned_policies directory policies (text "shop:seller" ∷ []))
resolve_app_owned_policies-IsOwned_example =
    resolve_app_owned_policies-IsOwned directory policies (text "shop:seller" ∷ [])

collected : get_app_owned_roles_for_user directory (text "u") (text "g") ≡ loaded_seller ∷ []
unfolding get_app_owned_roles_for_user Text-discrete
collected = refl

regular : All (IsRegular directory) (get_app_owned_roles_for_user directory (text "u") (text "g"))
unfolding get_app_owned_roles_for_user Text-discrete
regular = (
  record {
    app = shop;
    owned = refl;
    plain = refl;
    app_named = refl;
    role_named = refl;
    only_app = refl;
    only_role = refl;
    in_owner = refl;
  },
  tt,
)

resolve_app_owned_policies-for_user_example :
    resolve_app_owned_policies directory policies
      (format_role_names_for_token (get_app_owned_roles_for_user directory (text "u") (text "g")))
    ≡ resolve_app_owned_policies_for_user directory policies (text "u") (text "g")
resolve_app_owned_policies-for_user_example =
    resolve_app_owned_policies-for_user directory policies (text "u") (text "g") regular
