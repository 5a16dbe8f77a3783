-- ===== src/TenantAmbiguity/Sound.antt =====
-- The tenants that a user may choose from, and hints.
use identity_ghost.Prelude.{
  ◌≡◌, ◌≢◌, ◌⊎◌, refl, sym, ap, ◌∙◌, true, false, ◌&&◌, ◌||◌, Option, none, some, List, [], ◌∷◌,
  arith, filter, find, find-test, find-All, any, map, Text, ◌==◌, eq_of_==, ==_of_eq, includes, All,
  Bool-cases, Option-cases, inl, inr,
}
use identity_ghost.Errors.{ok, Result-cases}
use identity_ghost.Client.{Client, Table, Tenant, find_by_client_id_or_alias}
use identity_ghost.Directory.{
  App, TenantMember, Subscription, Directory, is_success, is_member, has_valid_subscription,
}
use identity_ghost.TenantAmbiguity.{
  app_of, subscribed_ids, fits, push_if, collect, find_subscriber_tenants, is_hinted, resolve_hint,
}

subscribed :
    (app : App) (tenant : Text) (subs : List Subscription)
    → includes
        (map (λ s. s.subscriber_id) (filter (λ s. s.app_id == app.id && is_success s.status) subs))
        tenant
      ≡ true
    → any (λ s. s.subscriber_id == tenant && s.app_id == app.id && is_success s.status) subs ≡ true
subscribed app tenant [] h = cc
subscribed app tenant (s ∷ subs) h = ground (arith, subscribed app tenant subs)

-- A tenant that a user may log in from for an app.
pub record MayChoose (d : Directory) (user_id : Text) (app : App) (t : Tenant) : Type 0 where
  pub member : is_member d t.id user_id ≡ true
  pub guest : t.id ≢ app.owner_id
  pub subscribes : has_valid_subscription d t.id app ≡ true

collect-MayChoose :
    (d : Directory) (user_id : Text) (app : App) (ms : List TenantMember)
    → ((m : TenantMember)
        → any (λ (k : TenantMember). k.tenant_id == m.tenant_id && k.user_id == m.user_id) ms ≡ true
        → is_member d m.tenant_id m.user_id ≡ true)
    → All
        (MayChoose d user_id app)
        (collect d app (subscribed_ids d app) (filter (λ m. m.user_id == user_id) ms))
unfolding collect has_valid_subscription
collect-MayChoose d user_id app [] known = tt
collect-MayChoose d user_id app (m ∷ ms) known =
    go (collect-MayChoose d user_id app ms (λ k h. known k (ground (arith, h))))
      (Bool-cases (m.user_id == user_id))
  where
    pushed :
        (o : Option Tenant) (later : List Tenant)
        → find (λ (t : Tenant). t.id == m.tenant_id) d.tenants ≡ o
        → (m.user_id == user_id) ≡ true
        → All (MayChoose d user_id app) later
        → All (MayChoose d user_id app) (push_if app (subscribed_ids d app) o later)
    pushed none later e mine h = h
    pushed (some t) later e mine h = elim (Bool-cases (fits app (subscribed_ids d app) t)) [
      | inr no_fit ↦ rw no_fit h
      | inl fit ↦
          let same =
            eq_of_== t.id m.tenant_id
              (find-test (λ (u : Tenant). u.id == m.tenant_id) d.tenants e) in
          let own = eq_of_== m.user_id user_id mine in
          let here = known m (
            ground
              (arith, ==_of_eq m.tenant_id m.tenant_id refl, ==_of_eq m.user_id m.user_id refl)) in
          rw fit (
            record {
              member =
                  ap (λ x. is_member d x user_id) same
                  ∙ ap (λ x. is_member d m.tenant_id x) (sym own)
                  ∙ here;
              guest = λ k. ground (arith, ==_of_eq t.id app.owner_id k);
              subscribes = subscribed app t.id d.subscriptions (ground arith);
            },
            h,
          )
    ]

    go :
        All
          (MayChoose d user_id app)
          (collect d app (subscribed_ids d app) (filter (λ m. m.user_id == user_id) ms))
        → ((m.user_id == user_id) ≡ true) ⊎ ((m.user_id == user_id) ≡ false)
        → All
            (MayChoose d user_id app)
            (collect d app (subscribed_ids d app) (filter (λ m. m.user_id == user_id) (m ∷ ms)))
    go rest (inr other) = rw other rest
    go rest (inl mine) =
        rw mine (pushed (find (λ (t : Tenant). t.id == m.tenant_id) d.tenants) _ refl mine rest)

-- A hint that resolves names a tenant that the user is a member of, that does not own the client's app,
-- and that has a subscription to it in force; so the user may log in from it to the app's owner.
pub resolve_hint-MayChoose :
    (d : Directory) (clients : Table) (user_id client_id hint : Text) {t : Tenant}
    → resolve_hint d clients user_id client_id hint ≡ some t
    → (c : Client) × (find_by_client_id_or_alias client_id clients ≡ ok c)
      × (app : App) × (app_of d c ≡ some app)
      × MayChoose d user_id app t
      × ((t.domain == hint || t.id == hint) ≡ true)
unfolding resolve_hint find_subscriber_tenants find_by_client_id_or_alias collect is_member
resolve_hint-MayChoose d clients user_id client_id hint {t} h =
    elim (Result-cases (find_by_client_id_or_alias client_id clients)) [
      | inr (e, bad) ↦ let none_found = rw bad at h in cc
      | inl (c, found) ↦
          let h1 = rw found at h in
          elim (Option-cases (app_of d c)) [
            | inl none_app ↦ let bad = rw none_app at h1 in cc
            | inr (app, linked) ↦
                let h2 = rw linked at h1 in
                (
                  c,
                  found,
                  app,
                  linked,
                  find-All (is_hinted hint) (MayChoose d user_id app) _
                      (collect-MayChoose d user_id app d.members (λ m k. k)) h2,
                  find-test (is_hinted hint) _ h2,
                )
          ]
    ]
