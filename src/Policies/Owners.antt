-- ===== src/Policies/Owners.antt =====
-- Whose policies are resolved, by names and by the rows of a user.
use mathlib.Core.List.{Memᴰ}
use identity_ghost.Prelude.{
  ◌≡◌, refl, ap, ◌∙◌, sym, subst, Bool, true, ◌++◌, eqb, ◌&&◌, Option, none, some, List, [], ◌∷◌,
  arith, find, find-test, Text, ◌==◌, is_text, All, All-append, Bool-cases, Option-cases, inl, inr,
  eq_of_==,
}
use identity_ghost.Directory.{App, Role, Directory}
use identity_ghost.Policies.{
  Policy, ParsedName, split_name, parse_app_owned_role_name, is_role_of, policies_of,
  resolve_app_owned_policies,
}

find-Memᴰ {ℓ} : {A : Type ℓ} (p : A → Bool) (xs : List A) {x : A} → find p xs ≡ some x → Memᴰ x xs
find-Memᴰ p [] h = cc
find-Memᴰ p (y ∷ xs) {x} h = elim (Bool-cases (p y)) [
  | inl hit ↦ let same : y ≡ x = ground arith in subst (λ z. Memᴰ z (y ∷ xs)) same (Memᴰ.head refl)
  | inr miss ↦ Memᴰ.tail (find-Memᴰ p xs (ground arith))
]

-- A stored policy of the owner of a stored app, for a stored role of that app in the owner's tenant, where
-- one of the names is that of the app and the role.
abbrev pub IsOwned : Directory → List Policy → List Text → Policy → Type 0
IsOwned d policies names p =
    (a : App) × (r : Role) × Memᴰ a d.apps
    × Memᴰ r d.roles
    × Memᴰ p policies
    × Memᴰ (a.name ++ b':' ∷ r.name) names
    × (p.tenant_id ≡ a.owner_id)
    × (p.role_id ≡ r.id)
    × (r.app_id ≡ some a.id)
    × (r.tenant_id ≡ a.owner_id)

-- What holds of each policy that the query for one role finds.
policies_of-All :
    (P : Policy → Type 0) (role_id tenant_id : Text) (policies : List Policy)
    → ((p : Policy) → Memᴰ p policies → p.role_id ≡ role_id → p.tenant_id ≡ tenant_id → P p)
    → All P (policies_of policies role_id tenant_id)
unfolding policies_of
policies_of-All P role_id tenant_id [] h = tt
policies_of-All P role_id tenant_id (p ∷ ps) h =
    let rest = policies_of-All P role_id tenant_id ps (λ q m. h q (Memᴰ.tail m)) in
    elim (Bool-cases (p.role_id == role_id && p.tenant_id == tenant_id)) [
      | inr other ↦ rw other rest
      | inl mine ↦ rw mine (
        h p (Memᴰ.head refl) (eq_of_== p.role_id role_id (ground arith))
            (eq_of_== p.tenant_id tenant_id (ground arith)),
        rest,
      )
    ]

split_name-eq-some :
    (s : Text) {n : ParsedName} → split_name s ≡ some n → n.app_name ++ b':' ∷ n.role_name ≡ s
unfolding split_name
split_name-eq-some [] h = cc
split_name-eq-some (c ∷ s) {n} h = elim (Bool-cases (eqb c b':')) [
  | inl colon ↦ let same : c ≡ b':' = ground arith in ground arith
  | inr other ↦ elim (Option-cases (split_name s)) [
    | inl bad ↦ let e = rw (other, bad) at h in cc
    | inr (m, found) ↦
        let rest = split_name-eq-some s {n = m} found in let e = rw (other, found) at h in cc
  ]
]

parsed_name :
    (s : Text) {n : ParsedName}
    → parse_app_owned_role_name s ≡ some n
    → n.app_name ++ b':' ∷ n.role_name ≡ s
unfolding parse_app_owned_role_name
parsed_name s {n} h = elim (Option-cases (split_name s)) [
  | inl bad ↦ let e = rw (bad, parse_app_owned_role_name) at h in cc
  | inr (m, found) ↦
      let e = rw (found, parse_app_owned_role_name) at h in
      let same : m ≡ n = ground arith in split_name-eq-some s (found ∙ ap (λ x. some x) same)
]

role_app : (r : Role) (a : App) → is_text r.app_id a.id ≡ true → r.app_id ≡ some a.id
role_app r a h = go r.app_id h
  where
    go : (o : Option Text) → is_text o a.id ≡ true → o ≡ some a.id
    go none h = cc
    go (some t) h = ap (λ s. some s) (eq_of_== t a.id h)

module _ (d : Directory) (policies : List Policy) where
  for_name-IsOwned :
      (name : Text) (names : List Text) (n : ParsedName) (a : App) (r : Role)
      → parse_app_owned_role_name name ≡ some n
      → find (λ (x : App). x.name == n.app_name) d.apps ≡ some a
      → find (is_role_of a n.role_name) d.roles ≡ some r
      → All (IsOwned d policies (name ∷ names)) (policies_of policies r.id a.owner_id)
  for_name-IsOwned name names n a r parsed app role =
      let fits = find-test (is_role_of a n.role_name) d.roles role in
      let app_named : a.name ≡ n.app_name =
        eq_of_== a.name n.app_name (find-test (λ (x : App). x.name == n.app_name) d.apps app) in
      let role_named : r.name ≡ n.role_name = eq_of_== r.name n.role_name (ground arith) in
      let whole : name ≡ a.name ++ b':' ∷ r.name = sym (
        ap (λ x. x ++ b':' ∷ r.name) app_named
        ∙ ap (λ x. n.app_name ++ b':' ∷ x) role_named
        ∙ parsed_name name parsed) in
      policies_of-All (IsOwned d policies (name ∷ names)) r.id a.owner_id policies (λ p m e e'. (
        a,
        r,
        find-Memᴰ _ d.apps app,
        find-Memᴰ _ d.roles role,
        m,
        subst (λ x. Memᴰ x (name ∷ names)) whole (Memᴰ.head refl),
        e',
        e,
        role_app r a (ground arith),
        eq_of_== r.tenant_id a.owner_id (ground arith),
      ))

  weaker :
      (name : Text) (names : List Text) (ps : List Policy)
      → All (IsOwned d policies names) ps
      → All (IsOwned d policies (name ∷ names)) ps
  weaker name names [] h = tt
  weaker name names (p ∷ ps) ((a, r, ma, mr, mp, mn, e1, e2, e3, e4), h) =
      ((a, r, ma, mr, mp, Memᴰ.tail mn, e1, e2, e3, e4), weaker name names ps h)

  -- Each policy that the role names of a token resolve to is a stored policy of the tenant that owns a
  -- stored app, for a stored role of that app in that tenant, and one of the names is the name of that app,
  -- a colon and the name of that role.
  pub resolve_app_owned_policies-IsOwned :
      (names : List Text)
      → All (IsOwned d policies names) (resolve_app_owned_policies d policies names)
  unfolding resolve_app_owned_policies
  resolve_app_owned_policies-IsOwned [] = tt
  resolve_app_owned_policies-IsOwned (name ∷ names) =
      let rest =
        weaker name names (resolve_app_owned_policies d policies names)
          (resolve_app_owned_policies-IsOwned names) in
      elim (Option-cases (parse_app_owned_role_name name)) [
        | inl bad ↦ rw (bad, resolve_app_owned_policies) rest
        | inr (n, parsed) ↦ elim (Option-cases (find (λ (a : App). a.name == n.app_name) d.apps)) [
          | inl no_app ↦ rw (parsed, no_app, resolve_app_owned_policies) rest
          | inr (a, app) ↦ elim (Option-cases (find (is_role_of a n.role_name) d.roles)) [
            | inl no_role ↦ rw (parsed, app, no_role, resolve_app_owned_policies) rest
            | inr (r, role) ↦
                rw (parsed, app, role, resolve_app_owned_policies)
                  (All-append (IsOwned d policies (name ∷ names))
                    (policies_of policies r.id a.owner_id) _
                    (for_name-IsOwned name names n a r parsed app role) rest)
          ]
        ]
      ]
