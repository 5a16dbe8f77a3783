-- ===== src/TokenEndpoint/Authorized.antt =====
-- Whom the token endpoint serves.
use identity_ghost.Prelude.{
  ◌≡◌, ◌⊎◌, refl, sym, ap, ◌∙◌, subst, true, false, Option, some, map, Text, text, or_else, or_null,
}
use identity_ghost.Errors.{Result, ok, err}
use identity_ghost.AuthCode
use identity_ghost.Client.{Client, find_by_client_id_or_alias}
use identity_ghost.ClientAuth.{
  validate_client_secret, validate_client_credentials, found_or_refused,
}
use identity_ghost.ClientAuth.Accepted.{found-eq-ok, IsSecret, validate_client_credentials-eq-ok}
use identity_ghost.CodeGrant.{IssueRequest, handle_code_grant}
use identity_ghost.Directory.{User, find_user, find_tenant}
use identity_ghost.Client.{Tenant}
use identity_ghost.Tokens.{
  GrantType, password, client_credentials, refresh_token, authorization_code,
}
use identity_ghost.TokenIssuance.{
  Draws, Stores, TokenResponse, issue_token, refresh, issue_client_credentials_token,
}
use identity_ghost.TokenIssuance.Inversion.{after-eq-ok, lift-eq-ok}
use identity_ghost.TokenEndpoint.Inversion.{
  shaped-eq-ok, unauthorized-eq-ok, permits-eq-ok, validate_user, authenticates-eq-ok,
  with_codes-eq-ok,
}
use identity_ghost.TokenEndpoint.{
  Server, State, Body, validate, code_body, code_options, password_options, shaped, or_unauthorized,
  permits_password, validate_resource_for_token_request, handle_password_grant, resource_for,
  handle_client_credentials_grant, authenticates, rotate_params, handle_refresh_token_grant,
  issue_for, with_codes, issue_if, exchange_code, dispatch,
}

module _ (server : Server) (draws : Draws) where
  -- What each grant has shown before a token is issued, and the issue that the response comes from.
  pub data IsAuthorized (b : Body) (s s' : State) (r : TokenResponse) : GrantType → Type 0 where
    by_code :
        (q : IssueRequest) (user : User) (tenant : Tenant)
        → handle_code_grant
            (λ _. server.valid authorization_code b)
            server.hashes
            (map (λ u. u.id) server.issuance.directory.users)
            (map (λ t. t.id) server.issuance.directory.tenants)
            server.database
            (code_body b)
            draws.now
            s.codes
          ≡ (ok q, s'.codes)
        → find_user server.issuance.directory q.user_id ≡ ok user
        → find_tenant server.issuance.directory q.tenant_id ≡ ok tenant
        → issue_token server.issuance draws user tenant (code_options q) s.stores
          ≡ (ok r, s'.stores)
        → IsAuthorized b s s' r authorization_code
    by_password :
        (client : Client) (user : User) (resource : Option Text)
        → find_by_client_id_or_alias b.client_id server.issuance.clients ≡ ok client
        → client.allow_password_grant ≡ true
        → user.email ≡ b.username
        → server.argon2 user.password b.password ≡ true
        → user.locked ≡ false
        → issue_token server.issuance draws user client.tenant
            (password_options b resource)
            s.stores
          ≡ (ok r, s'.stores)
        → IsAuthorized b s s' r password
    by_secret :
        (client : Client) (resource : Option Text)
        → find_by_client_id_or_alias b.client_id server.issuance.clients ≡ ok client
        → client.is_public ≡ false
        → IsSecret server.scrypt server.secrets draws.now (or_else b.client_secret (text "")) client
        → issue_client_credentials_token server.issuance draws client b.scope resource s.stores
          ≡ (ok r, s'.stores)
        → IsAuthorized b s s' r client_credentials
    by_refresh_token :
        (client : Client) (resource : Option Text)
        → find_by_client_id_or_alias b.client_id server.issuance.clients ≡ ok client
        → (client.is_public ≡ true)
          ⊎ ((secret : Text) × (or_null b.client_secret ≡ some secret)
              × (validate_client_secret server.scrypt server.secrets draws.now client secret
                  ≡ true))
        → refresh server.issuance draws
            (rotate_params server draws b client)
            resource
            (some b.client_id)
            s.stores
          ≡ (ok r, s'.stores)
        → IsAuthorized b s s' r refresh_token

  exchange_code-IsAuthorized :
      (b : Body) (s s' : State) {r : TokenResponse}
      → exchange_code server draws b s ≡ (ok r, s')
      → IsAuthorized b s s' r authorization_code
  unfolding exchange_code issue_for
  exchange_code-IsAuthorized b s s' {r} h =
      go
        (handle_code_grant (λ _. server.valid authorization_code b) server.hashes
          (map (λ u. u.id) server.issuance.directory.users)
          (map (λ t. t.id) server.issuance.directory.tenants) server.database (code_body b)
          draws.now s.codes)
        refl h
    where
      go :
          (m : Result IssueRequest × AuthCode.Table)
          → handle_code_grant
              (λ _. server.valid authorization_code b)
              server.hashes
              (map (λ u. u.id) server.issuance.directory.users)
              (map (λ t. t.id) server.issuance.directory.tenants)
              server.database
              (code_body b)
              draws.now
              s.codes
            ≡ m
          → issue_if server draws s.stores m ≡ (ok r, s')
          → IsAuthorized b s s' r authorization_code
      go (err e, codes) same k = cc
      go (ok q, codes) same k =
          let issued = with_codes-eq-ok server draws codes (issue_for server draws q s.stores) k in
          let (user, known, k1) =
            lift-eq-ok (find_user server.issuance.directory q.user_id) _ s.stores issued in
          let (tenant, home, k2) =
            lift-eq-ok (find_tenant server.issuance.directory q.tenant_id) _ s.stores k1 in
          by_code q user tenant
            (same ∙ ap (λ c. (ok q, c)) (codes_kept (issue_for server draws q s.stores) k)) known
            home k2
        where
          codes_kept :
              (m : Result TokenResponse × Stores)
              → with_codes server draws codes m ≡ (ok r, s')
              → codes ≡ s'.codes
          codes_kept m k = ap (λ (p : Result TokenResponse × State). p.1.codes) k

  password-IsAuthorized :
      (b : Body) (s s' : State) {r : TokenResponse}
      → handle_password_grant server draws b s.stores ≡ (ok r, s'.stores)
      → IsAuthorized b s s' r password
  unfolding handle_password_grant
  password-IsAuthorized b s s' h =
      let (u, s1, checked, h1) = after-eq-ok (shaped (server.valid password b) s.stores) _ h in
      let same = shaped-eq-ok server draws (server.valid password b) s.stores s1 checked in
      let (found, named, h2) =
        lift-eq-ok
          (or_unauthorized (find_by_client_id_or_alias b.client_id server.issuance.clients)) _ s1
          h1 in
      let (client, permitted, h3) = lift-eq-ok (permits_password found) _ s1 h2 in
      let (one, on) = permits-eq-ok server draws found permitted in
      let (user, let_in, h4) = lift-eq-ok (validate server b.username b.password) _ s1 h3 in
      let (email, right, free) = validate_user server draws b.username b.password let_in in
      let (resource, listed, h5) =
        lift-eq-ok (validate_resource_for_token_request server draws b.resource b.client_id) _ s1
          h4 in
      by_password client user resource
        (unauthorized-eq-ok server draws
            (find_by_client_id_or_alias b.client_id server.issuance.clients) named
          ∙ ap (λ c. ok c) one)
        (ap (λ (c : Client). c.allow_password_grant) (sym one) ∙ on) email right free
        (ap
            (λ x.
              issue_token server.issuance draws user client.tenant (password_options b resource) x)
            same
          ∙ h5)

  secret-IsAuthorized :
      (b : Body) (s s' : State) {r : TokenResponse}
      → handle_client_credentials_grant server draws b s.stores ≡ (ok r, s'.stores)
      → IsAuthorized b s s' r client_credentials
  unfolding handle_client_credentials_grant
  secret-IsAuthorized b s s' h =
      let (u, s1, checked, h1) =
        after-eq-ok (shaped (server.valid client_credentials b) s.stores) _ h in
      let same =
        shaped-eq-ok server draws (server.valid client_credentials b) s.stores s1 checked in
      let secret = or_else b.client_secret (text "") in
      let (client, let_in, h2) =
        lift-eq-ok
          (validate_client_credentials server.scrypt server.secrets server.issuance.clients
            draws.now b.client_id secret)
          _ s1 h1 in
      let (found, confidential, right) =
        validate_client_credentials-eq-ok server.scrypt server.secrets server.issuance.clients
          draws.now b.client_id secret let_in in
      let (resource, listed, h3) =
        lift-eq-ok (resource_for server draws client (or_null b.resource)) _ s1 h2 in
      by_secret client resource found confidential right (
        ap (λ x. issue_client_credentials_token server.issuance draws client b.scope resource x)
          same
        ∙ h3)

  refresh-IsAuthorized :
      (b : Body) (s s' : State) {r : TokenResponse}
      → handle_refresh_token_grant server draws b s.stores ≡ (ok r, s'.stores)
      → IsAuthorized b s s' r refresh_token
  unfolding handle_refresh_token_grant
  refresh-IsAuthorized b s s' {r} h =
      let (u, s1, checked, h1) = after-eq-ok (shaped (server.valid refresh_token b) s.stores) _ h in
      let same = shaped-eq-ok server draws (server.valid refresh_token b) s.stores s1 checked in
      let (found, named, h2) =
        lift-eq-ok
          (found_or_refused server.scrypt server.secrets
            (find_by_client_id_or_alias b.client_id server.issuance.clients))
          _ s1 h1 in
      let (client, let_in, h3) =
        lift-eq-ok (authenticates server draws found (or_null b.client_secret)) _ s1 h2 in
      let (one, shown) = authenticates-eq-ok server draws found (or_null b.client_secret) let_in in
      let (resource, listed, h4) =
        lift-eq-ok (validate_resource_for_token_request server draws b.resource b.client_id) _ s1
          h3 in
      by_refresh_token client resource
        (found-eq-ok server.scrypt server.secrets
            (find_by_client_id_or_alias b.client_id server.issuance.clients) named
          ∙ ap (λ c. ok c) one)
        (subst
          (λ (c : Client).
            (c.is_public ≡ true)
            ⊎ ((t : Text) × (or_null b.client_secret ≡ some t)
                × (validate_client_secret server.scrypt server.secrets draws.now c t ≡ true)))
          one shown)
        (ap
            (λ x.
              refresh server.issuance draws (rotate_params server draws b client) resource
                (some b.client_id) x)
            same
          ∙ h4)

  -- The token endpoint answers with tokens only if, for the grant that the request names: the code was
  -- redeemed and its checks passed; or the client may use passwords and the password is that of the
  -- user, who is not locked; or a confidential client has shown a live secret; or the client of the
  -- refresh token is public or has shown its secret. The response is then that of the service for
  -- this user, client or token.
  pub dispatch-IsAuthorized :
      (g : GrantType) (b : Body) (s s' : State) {r : TokenResponse}
      → dispatch server draws (some g) b s ≡ (ok r, s')
      → IsAuthorized b s s' r g
  unfolding dispatch
  dispatch-IsAuthorized authorization_code b s s' h = exchange_code-IsAuthorized b s s' h
  dispatch-IsAuthorized password b s s' h =
      password-IsAuthorized b s s'
        (with_codes-eq-ok server draws s.codes (handle_password_grant server draws b s.stores) h)
  dispatch-IsAuthorized client_credentials b s s' h = secret-IsAuthorized b s s' (
      with_codes-eq-ok server draws s.codes
        (handle_client_credentials_grant server draws b s.stores) h)
  dispatch-IsAuthorized refresh_token b s s' h =
      refresh-IsAuthorized b s s' (
        with_codes-eq-ok server draws s.codes (handle_refresh_token_grant server draws b s.stores)
          h)
