-- ===== src/Policies/Names.antt =====
-- The names that tokens carry for the roles of an app.
use identity_ghost.Prelude.{◌≡◌, refl, false, some, [], ◌∷◌, ◌++◌, arith, Text, is_blank}
use identity_ghost.Directory.{App, LoadedRole}
use identity_ghost.Policies.{
  split_name, parse_app_owned_role_name, format_role_name, contains_colon,
}

pub split_name-append :
    (a r : Text)
    → contains_colon a ≡ false
    → split_name (a ++ b':' ∷ r) ≡ some (record { app_name = a; role_name = r })
unfolding split_name
split_name-append [] r h = refl
split_name-append (c ∷ a) r h = ground (arith, split_name-append a r)

-- A role of an app whose name is not empty and has no colon is written in a token as a name that parses
-- back into the name of the app and that of the role.
pub parse-format_role_name :
    (l : LoadedRole) {a : App}
    → l.app ≡ some a
    → contains_colon a.name ≡ false
    → is_blank a.name ≡ false
    → is_blank l.role.name ≡ false
    → parse_app_owned_role_name (format_role_name l)
      ≡ some (record { app_name = a.name; role_name = l.role.name })
unfolding parse_app_owned_role_name format_role_name
parse-format_role_name l {a} owned plain named given =
    rw (owned, format_role_name)
      (rw (split_name-append a.name l.role.name plain, parse_app_owned_role_name)
        (ground (arith, named, given)))

split_name-first :
    (a b r : Text)
    → contains_colon a ≡ false
    → split_name ((a ++ b':' ∷ b) ++ b':' ∷ r)
      ≡ some (record { app_name = a; role_name = b ++ b':' ∷ r })
unfolding split_name
split_name-first [] b r h = refl
split_name-first (c ∷ a) b r h = ground (arith, split_name-first a b r)

append_solid : (s r : Text) → is_blank (s ++ b':' ∷ r) ≡ false
append_solid [] r = refl
append_solid (c ∷ s) r = refl

-- The name of an app is not required to have no colon: where it has one, the name in the token parses
-- into the part before it, so the policies are looked for at another app.
pub parse-format_colon :
    (l : LoadedRole) (a : App) (before after : Text)
    → l.app ≡ some a
    → a.name ≡ before ++ b':' ∷ after
    → contains_colon before ≡ false
    → is_blank before ≡ false
    → parse_app_owned_role_name (format_role_name l)
      ≡ some (record { app_name = before; role_name = after ++ b':' ∷ l.role.name })
unfolding parse_app_owned_role_name format_role_name
parse-format_colon l a before after owned e plain named =
    rw (owned, format_role_name)
      (rw e (
        rw (split_name-first before after l.role.name plain, parse_app_owned_role_name)
          (ground (arith, named, append_solid after l.role.name))))
