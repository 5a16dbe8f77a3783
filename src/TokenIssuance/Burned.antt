-- ===== src/TokenIssuance/Burned.antt =====
-- A refresh that fails after the rotation.
use identity_ghost.Prelude.{
  ◌≡◌, refl, sym, ap, ◌∙◌, true, false, Option, none, some, Text, or_null, inl, inr, Option-cases,
  ◌/◌, or_else,
}
use identity_ghost.Errors.{Exception, Result, ok, err, ok-injective, Result-cases}
use identity_ghost.Scope.{parse}
use identity_ghost.RefreshToken.{RotateParams, Issued, consume_and_rotate}
use identity_ghost.RefreshToken
use identity_ghost.Directory.{User, find_user, find_tenant, is_member, get_member_roles}
use identity_ghost.Tokens.{refresh_token, create_access_token, generate_id_token}
use identity_ghost.TokenIssuance.{
  Server, Draws, Stores, M, after, lift, resolve_client, audience, role_names, check_locked,
  session_of_record, renew, refresh,
}
use identity_ghost.TokenIssuance.Renewal.{refresh-IsRenewed}

after-kept {ℓ κ} :
    {A : Type ℓ} {B : Type κ} (r : Result A × Stores) (next : A → M B) (s : Stores)
    → r.1 ≡ s
    → ((a : A) → (next a s).1 ≡ s)
    → (after r next).1 ≡ s
after-kept (ok a, t) next s e h = ap (λ x. (next a x).1) e ∙ h a
after-kept (err x, t) next s e h = e

module _ (server : Server) (draws : Draws) (resource oauth_client_id : Option Text) where
  session_of_record-kept :
      (sid : Option Text) (s : Stores) → (session_of_record server draws sid s).1 ≡ s
  unfolding session_of_record
  session_of_record-kept sid s = elim (Option-cases (or_null sid)) [
    | inl e ↦ rw (e, session_of_record) refl
    | inr (id, e) ↦ rw (e, session_of_record) refl
  ]

  -- What follows the rotation writes nothing.
  renew-kept : (i : Issued) (s : Stores) → (renew server draws resource oauth_client_id i s).1 ≡ s
  unfolding renew
  renew-kept i s = after-kept (lift (find_user server.directory i.row.user_id) s) _ s refl λ user0.
      after-kept (lift (check_locked server draws user0) s) _ s refl λ user.
        after-kept (lift (find_tenant server.directory i.row.tenant_id) s) _ s refl λ tenant.
          after-kept (lift (resolve_client server.clients tenant none) s) _ s refl λ client.
            after-kept (lift (get_member_roles server.directory tenant.id user.id) s) _ s refl
              λ roles.
                after-kept
                  (lift
                    (create_access_token server.signer server.keys user tenant none
                      (parse (some i.row.scope)) (role_names server draws roles user.id tenant.id)
                      refresh_token (audience server resource) client.client_id draws.jti draws.now)
                    s)
                  _ s refl
                  λ issued.
                    after-kept (session_of_record server draws i.row.sid s) _ s
                      (session_of_record-kept i.row.sid s)
                      λ session.
                        after-kept
                          (lift
                            (generate_id_token server.signer server.keys user tenant.id
                              (or_else oauth_client_id client.client_id) issued.1 issued.0 none
                              session.0 session.1 (draws.now / 1000))
                            s)
                          _ s refl λ id. refl

  -- A user who may not be given a token any more: locked, or no direct member of the tenant (as every
  -- user whose token was issued through a subscription).
  pub data IsBarred (i : Issued) : Type 0 where
    locked :
        (u : User) → find_user server.directory i.row.user_id ≡ ok u → u.locked ≡ true → IsBarred i
    outside : is_member server.directory i.row.tenant_id i.row.user_id ≡ false → IsBarred i

  -- If the rotation succeeds but the user is locked, or is no direct member of the tenant, the call fails
  -- after the token has been consumed: the table is that of the rotation, whose new token nobody gets.
  pub refresh-burned :
      (p : RotateParams) (s : Stores) (i : Issued) (t' : RefreshToken.Table)
      → consume_and_rotate server.hash server.refresh_config p draws.refresh draws.now draws.later
          s.tokens
        ≡ (ok i, t')
      → IsBarred i
      → (e : Exception) × (refresh server draws p resource oauth_client_id s
          ≡ (err e, record s { tokens = t' }))
  unfolding refresh
  refresh-burned p s i t' turned barred =
      let state : (refresh server draws p resource oauth_client_id s).1 ≡ record s { tokens = t' } =
        rw turned (renew-kept i (record s { tokens = t' })) in
      elim (Result-cases (refresh server draws p resource oauth_client_id s).0) [
        | inr (e, failed) ↦ (e, λ k. (failed k, state k))
        | inl (r, returned) ↦
            let (j, turned', renewed, _) =
              refresh-IsRenewed server draws resource oauth_client_id p s (record s { tokens = t' })
                (λ k. (returned k, state k)) in
            absurd (
              refused barred j
                (ok-injective
                  (ap (λ (x : Result Issued × RefreshToken.Table). x.0) (sym turned ∙ turned')))
                renewed.user renewed.known renewed.unlocked renewed.member)
      ]
    where
      refused :
          IsBarred i
          → (j : Issued) → i ≡ j
          → (u : User) → find_user server.directory j.row.user_id ≡ ok u
          → u.locked ≡ false
          → is_member server.directory j.row.tenant_id j.row.user_id ≡ true
          → ⊥
      refused (locked v known shut) j e u known' free member =
          let same : v ≡ u = ok-injective (
            sym known ∙ ap (λ (k : Issued). find_user server.directory k.row.user_id) e ∙ known') in
          let bad : v.locked ≡ false = ap (λ (w : User). w.locked) same ∙ free in cc
      refused (outside no_member) j e u known free member =
          let bad : is_member server.directory i.row.tenant_id i.row.user_id ≡ true =
            ap (λ (k : Issued). is_member server.directory k.row.tenant_id k.row.user_id) e
            ∙ member in
          cc
