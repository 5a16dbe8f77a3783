-- ===== src/TokenIssuance/Renewal.antt =====
-- The refresh grant: what it asks for after the rotation, and what a failure leaves behind.
use identity_ghost.Prelude.{
  ℕ, ◌/◌, ◌≡◌, ◌⊎◌, refl, sym, ap, ◌∙◌, subst, Bool, true, false, Option, none, some, or_else, Text,
  or_null, Option-cases, inl, inr, if◌then◌else◌,
}
use identity_ghost.Errors.{Result, ok, err, ok-injective, oauth, invalid_grant}
use identity_ghost.Scope.{format, parse}
use identity_ghost.Session.{LoginSession, validate_session}
use identity_ghost.RefreshToken.{RotateParams, Issued, consume_and_rotate}
use identity_ghost.RefreshToken
use identity_ghost.Directory.{User, find_user, find_tenant, is_member, get_member_roles}
use identity_ghost.Directory.Access.{get_member_roles-eq-ok, find_tenant-id, find_user-id}
use identity_ghost.Tokens.{refresh_token, create_access_token, generate_id_token, unique_sorted}
use identity_ghost.Tokens.Claims.{create_access_token-eq-ok}
use identity_ghost.TokenIssuance.{
  Server, Draws, Stores, TokenResponse, of_session, resolve_client, audience, role_names,
  format_response, put_rotated, rotate, check_locked, session_of_record, renew, refresh,
}
use identity_ghost.TokenIssuance.Inversion.{
  after-eq-ok, lift-eq-ok, lifted-eq-ok, format_response-eq-ok,
}

locked-eq-ok :
    (locked : Bool) (user : User) {u : User}
    → (if locked then err (oauth invalid_grant) else ok user) ≡ ok u
    → (u ≡ user) × (locked ≡ false)
locked-eq-ok true user h = cc
locked-eq-ok false user h = (sym (ok-injective h), refl)

module _ (server : Server) (draws : Draws) (resource oauth_client_id : Option Text) where
  -- Everything that a renewal has checked by the time that it responds.
  pub record IsRenewed (i : Issued) (s s' : Stores) (r : TokenResponse) : Type 0 where
    pub user : User
    pub known : find_user server.directory i.row.user_id ≡ ok user
    pub unlocked : user.locked ≡ false
    pub verified : user.verified ≡ true
    pub member : is_member server.directory i.row.tenant_id i.row.user_id ≡ true
    pub alive :
        (or_null i.row.sid ≡ none)
        ⊎ ((sid : Text) × (session : LoginSession) × (or_null i.row.sid ≡ some sid)
            × (validate_session sid draws.now s.sessions ≡ ok session))
    pub scope : r.scope ≡ format (unique_sorted (parse (some i.row.scope)))
    pub handed : r.refresh_token ≡ or_null (some i.plaintext)
    pub unchanged : s' ≡ s

  of_session-eq-ok :
      (v : Result LoginSession) {x : ℕ × Text}
      → of_session v ≡ ok x
      → (session : LoginSession) × (v ≡ ok session)
  of_session-eq-ok (ok session) h = (session, refl)
  of_session-eq-ok (err e) h = cc

  session_of_record-eq-ok :
      (sid : Option Text) (s s' : Stores) {x : ℕ × Text}
      → session_of_record server draws sid s ≡ (ok x, s')
      → (s ≡ s')
        × ((or_null sid ≡ none)
            ⊎ ((id : Text) × (session : LoginSession) × (or_null sid ≡ some id)
                × (validate_session id draws.now s.sessions ≡ ok session)))
  unfolding session_of_record
  session_of_record-eq-ok sid s s' h = elim (Option-cases (or_null sid)) [
    | inl without ↦
        let e = rw (without, session_of_record) at h in
        (ap (λ (p : Result (ℕ × Text) × Stores). p.1) e, inl without)
    | inr (id, e) ↦
        let k = rw (e, session_of_record) at h in
        let (session, live) =
          of_session-eq-ok (validate_session id draws.now s.sessions)
            (ap (λ (p : Result (ℕ × Text) × Stores). p.0) k) in
        (ap (λ (p : Result (ℕ × Text) × Stores). p.1) k, inr (id, session, e, live))
  ]

  renew-eq-ok :
      (i : Issued) (s s' : Stores) {r : TokenResponse}
      → renew server draws resource oauth_client_id i s ≡ (ok r, s')
      → IsRenewed i s s' r
  unfolding renew
  renew-eq-ok i s s' {r} h =
      let (user0, known, h1) = lift-eq-ok (find_user server.directory i.row.user_id) _ s h in
      let (user, open_, h2) = lift-eq-ok (check_locked server draws user0) _ s h1 in
      let (same, unlocked) = locked-eq-ok user0.locked user0 open_ in
      let (tenant, home, h3) = lift-eq-ok (find_tenant server.directory i.row.tenant_id) _ s h2 in
      let (client, found, h4) = lift-eq-ok (resolve_client server.clients tenant none) _ s h3 in
      let (roles, member, h5) =
        lift-eq-ok (get_member_roles server.directory tenant.id user.id) _ s h4 in
      let (issued, signed, h6) =
        lift-eq-ok
          (create_access_token server.signer server.keys user tenant none (parse (some i.row.scope))
            (role_names server draws roles user.id tenant.id) refresh_token
            (audience server resource) client.client_id draws.jti draws.now)
          _ s h5 in
      let (session, s1, begun, h7) =
        after-eq-ok (session_of_record server draws i.row.sid s) _ h6 in
      let (kept, alive) = session_of_record-eq-ok i.row.sid s s1 begun in
      let (id, identified, h8) =
        lift-eq-ok
          (generate_id_token server.signer server.keys user tenant.id
            (or_else oauth_client_id client.client_id) issued.1 issued.0 none session.0 session.1
            (draws.now / 1000))
          _ s1 h7 in
      let (formatted, last) =
        lifted-eq-ok (format_response server.token_seconds issued.0 (some i.plaintext) issued.1 id)
          s1 h8 in
      let response =
        format_response-eq-ok server.token_seconds issued.0 (some i.plaintext) issued.1 id
          formatted in
      let (verified, all_scopes, _) =
        create_access_token-eq-ok server.signer server.keys user tenant none
          (parse (some i.row.scope)) (role_names server draws roles user.id tenant.id) refresh_token
          (audience server resource) client.client_id draws.jti draws.now signed in
      record {
        user = user;
        known = known ∙ ap (λ u. ok u) (sym same);
        unlocked = ap (λ (u : User). u.locked) same ∙ unlocked;
        verified = verified;
        member =
            ap (λ t. is_member server.directory t i.row.user_id)
              (sym (find_tenant-id server.directory i.row.tenant_id home))
            ∙ ap (λ u. is_member server.directory tenant.id u)
                (sym (
                  ap (λ (u : User). u.id) same ∙ find_user-id server.directory i.row.user_id known))
            ∙ get_member_roles-eq-ok server.directory tenant.id user.id member;
        alive = alive;
        scope = response.scope ∙ ap (λ xs. format xs) all_scopes;
        handed = response.refresh_token;
        unchanged = sym (kept ∙ last);
      }

  rotated :
      (s : Stores) (c : Result Issued × RefreshToken.Table) {i : Issued} {s1 : Stores}
      → put_rotated server draws s c ≡ (ok i, s1)
      → (c ≡ (ok i, s1.tokens)) × (s1.sessions ≡ s.sessions)
  rotated s (ok j, t) {i} {s1} h = (
    ap (λ (p : Result Issued × Stores). (p.0, p.1.tokens)) h,
    sym (ap (λ (p : Result Issued × Stores). p.1.sessions) h),
  )
  rotated s (err e, t) h = cc

  -- When a refresh token is renewed, the token passed the rotation; its user is known, verified, not
  -- locked and a direct member of the tenant of the token; its session, if it has one, is still valid.
  -- The response hands out the plaintext of the rotation, with the scopes of the row; the sessions are
  -- as they were.
  pub refresh-IsRenewed :
      (p : RotateParams) (s s' : Stores) {r : TokenResponse}
      → refresh server draws p resource oauth_client_id s ≡ (ok r, s')
      → (i : Issued) × (consume_and_rotate server.hash server.refresh_config p draws.refresh
            draws.now draws.later s.tokens
          ≡ (ok i, s'.tokens))
        × IsRenewed i s' s' r
        × (s'.sessions ≡ s.sessions)
  unfolding refresh
  refresh-IsRenewed p s s' {r} h =
      let (i, s1, turned, h1) =
        after-eq-ok (rotate server draws p s) (renew server draws resource oauth_client_id) h in
      let renewed = renew-eq-ok i s1 s' h1 in
      let (consumed, kept) =
        rotated s
          (consume_and_rotate server.hash server.refresh_config p draws.refresh draws.now
            draws.later s.tokens)
          turned in
      (
        i,
        consumed ∙ ap (λ (x : Stores). (ok i, x.tokens)) (sym renewed.unchanged),
        subst (λ x. IsRenewed i x s' r) (sym renewed.unchanged) renewed,
        ap (λ (x : Stores). x.sessions) renewed.unchanged ∙ kept,
      )
