-- ===== src/TokenIssuance/Issue.antt =====
-- When `issueToken` returns, and what it then returns and stores.
use identity_ghost.Prelude.{
  ℕ, ◌/◌, ◌≡◌, ap, ◌∙◌, true, ◌&&◌, not, Option, none, some, List, or_else, Text, inl, inr,
}
use identity_ghost.Errors.{ok, err, bad_request}
use identity_ghost.Scope.{resolve_scopes}
use identity_ghost.Client.{Client, Tenant}
use identity_ghost.Directory.{
  User, Resolution, unresolved, resolved, ambiguous, is_member, is_user_subscribed_to_tenant,
  resolve_subscription_tenant_ambiguity, get_member_roles, can_login_to_tenant,
}
use identity_ghost.Directory.Access.{get_member_roles-eq-ok, resolved_can_login}
use identity_ghost.Tokens.{create_access_token, generate_id_token}
use identity_ghost.TokenIssuance.{
  Server, Draws, Stores, IssueTokenOptions, TokenResponse, lift, eligible, grant_of, client_scopes,
  should_issue_refresh_token, format_response, session_for, refresh_token_for, resolve_client,
  audience, complete, effective_hint, subscribing_tenant, role_names, issue_member_token,
  issue_subscribed_token, issue_token,
}
use identity_ghost.TokenIssuance.Inversion.{
  after-eq-ok, lift-eq-ok, lifted-eq-ok, IsResponse, format_response-eq-ok, branch-eq,
}

module _ (server : Server) (draws : Draws) (user : User) (tenant : Tenant)
    (o : IssueTokenOptions) where
  -- What the end of both paths has done, from the access token and its scopes on.
  pub record IsCompleted (client : Client) (issued : Text × List Text) (s s' : Stores)
      (r : TokenResponse) : Type 0 where
    pub session : ℕ × Text
    pub between : Stores
    pub refresh : Option Text
    pub id : Option Text
    pub begun : session_for server draws user tenant o s ≡ (ok session, between)
    pub renewable :
        refresh_token_for server draws user tenant client session.1 issued.1
          (eligible (should_issue_refresh_token issued.1 client (grant_of o.grant_type)))
          between
        ≡ (ok refresh, s')
    pub identified :
        generate_id_token server.signer server.keys user tenant.id
          (or_else o.oauth_client_id client.client_id)
          issued.1
          issued.0
          o.nonce
          session.0
          session.1
          (draws.now / 1000)
        ≡ ok id
    pub response : IsResponse issued.0 refresh issued.1 id r

  complete-eq-ok :
      (client : Client) (issued : Text × List Text) (s s' : Stores) {r : TokenResponse}
      → complete server draws user tenant client o issued s ≡ (ok r, s')
      → IsCompleted client issued s s' r
  unfolding complete
  complete-eq-ok client issued s s' {r} h =
      let (session, s1, begun, h1) = after-eq-ok (session_for server draws user tenant o s) _ h in
      let (refresh, s2, renewable, h2) =
        after-eq-ok
          (refresh_token_for server draws user tenant client session.1 issued.1
            (eligible (should_issue_refresh_token issued.1 client (grant_of o.grant_type))) s1)
          _ h1 in
      let (id, identified, h3) =
        lift-eq-ok
          (generate_id_token server.signer server.keys user tenant.id
            (or_else o.oauth_client_id client.client_id) issued.1 issued.0 o.nonce session.0
            session.1 (draws.now / 1000))
          _ s2 h2 in
      let (formatted, same) =
        lifted-eq-ok (format_response server.token_seconds issued.0 refresh issued.1 id) s2 h3 in
      record {
        session = session;
        between = s1;
        refresh = refresh;
        id = id;
        begun = begun;
        renewable = renewable ∙ ap (λ (x : Stores). (ok refresh, x)) same;
        identified = identified;
        response =
            format_response-eq-ok server.token_seconds issued.0 refresh issued.1 id formatted;
      }

  -- Whose token it is: the user is a member of the issuing tenant, or of a tenant that has subscribed to
  -- an app of it, which the token names.
  pub data IsHome : Option Tenant → Type 0 where
    local : is_member server.directory tenant.id user.id ≡ true → IsHome none
    visiting :
        (t : Tenant)
        → is_member server.directory t.id user.id ≡ true
        → can_login_to_tenant server.directory t.id tenant.id ≡ true
        → IsHome (some t)

  pub record IsIssue (s s' : Stores) (r : TokenResponse) : Type 0 where
    pub client : Client
    pub found : resolve_client server.clients tenant o.oauth_client_id ≡ ok client
    pub user_tenant : Option Tenant
    pub home : IsHome user_tenant
    pub roles : List Text
    pub scopes : List Text
    pub allowed : resolve_scopes o.requested_scope (client_scopes client) ≡ ok scopes
    pub issued : Text × List Text
    pub signed :
        create_access_token server.signer server.keys user tenant user_tenant scopes roles
          (grant_of o.grant_type)
          (audience server o.resource)
          client.client_id
          draws.jti
          draws.now
        ≡ ok issued
    pub completed : IsCompleted client issued s s' r

  issue_member_token-eq-ok :
      (client : Client) (s s' : Stores) {r : TokenResponse}
      → resolve_client server.clients tenant o.oauth_client_id ≡ ok client
      → issue_member_token server draws user tenant client o s ≡ (ok r, s')
      → IsIssue s s' r
  unfolding issue_member_token
  issue_member_token-eq-ok client s s' found h =
      let (roles, member, h1) =
        lift-eq-ok (get_member_roles server.directory tenant.id user.id) _ s h in
      let (scopes, allowed, h2) =
        lift-eq-ok (resolve_scopes o.requested_scope (client_scopes client)) _ s h1 in
      let names = role_names server draws roles user.id tenant.id in
      let (issued, signed, h3) =
        lift-eq-ok
          (create_access_token server.signer server.keys user tenant none scopes names
            (grant_of o.grant_type) (audience server o.resource) client.client_id draws.jti
            draws.now)
          (complete server draws user tenant client o) s h2 in
      record {
        client = client;
        found = found;
        user_tenant = none;
        home = local (get_member_roles-eq-ok server.directory tenant.id user.id member);
        roles = names;
        scopes = scopes;
        allowed = allowed;
        issued = issued;
        signed = signed;
        completed = complete-eq-ok client issued s s' h3;
      }

  subscribing :
      (f : Resolution) {t : Tenant} → subscribing_tenant server draws f ≡ ok t → f ≡ resolved t
  subscribing unresolved h = cc
  subscribing (resolved t) h = cc
  subscribing (ambiguous ts) h = cc

  issue_subscribed_token-eq-ok :
      (client : Client) (s s' : Stores) {r : TokenResponse}
      → resolve_client server.clients tenant o.oauth_client_id ≡ ok client
      → issue_subscribed_token server draws user tenant client o s ≡ (ok r, s')
      → IsIssue s s' r
  unfolding issue_subscribed_token
  issue_subscribed_token-eq-ok client s s' found h =
      let hint = effective_hint server draws o in
      let (f, settled, h1) =
        lift-eq-ok (resolve_subscription_tenant_ambiguity server.directory user.id tenant.id hint) _
          s h in
      let (t, chosen, h2) = lift-eq-ok (subscribing_tenant server draws f) _ s h1 in
      let (roles, member, h3) =
        lift-eq-ok (get_member_roles server.directory t.id user.id) _ s h2 in
      let (scopes, allowed, h4) =
        lift-eq-ok (resolve_scopes o.requested_scope (client_scopes client)) _ s h3 in
      let names = role_names server draws roles user.id t.id in
      let (issued, signed, h5) =
        lift-eq-ok
          (create_access_token server.signer server.keys user tenant (some t) scopes names
            (grant_of o.grant_type) (audience server o.resource) client.client_id draws.jti
            draws.now)
          (complete server draws user tenant client o) s h4 in
      record {
        client = client;
        found = found;
        user_tenant = some t;
        home = visiting t (get_member_roles-eq-ok server.directory t.id user.id member) (
            resolved_can_login server.directory user.id tenant.id hint
              (settled ∙ ap (λ x. ok x) (subscribing f chosen)));
        roles = names;
        scopes = scopes;
        allowed = allowed;
        issued = issued;
        signed = signed;
        completed = complete-eq-ok client issued s s' h5;
      }

  pub issue_token-eq-ok :
      (s s' : Stores) {r : TokenResponse}
      → issue_token server draws user tenant o s ≡ (ok r, s')
      → IsIssue s s' r
  unfolding issue_token
  issue_token-eq-ok s s' h =
      let member = is_member server.directory tenant.id user.id in
      let subscribed = is_user_subscribed_to_tenant server.directory user.id tenant.id in
      elim (branch-eq (not member && not subscribed) (lift (err bad_request)) _ s h) [
        | inl (outside, bad) ↦ cc
        | inr (inside, h1) ↦
            let (client, found, h2) =
              lift-eq-ok (resolve_client server.clients tenant o.oauth_client_id) _ s h1 in
            elim (branch-eq subscribed (issue_subscribed_token server draws user tenant client o)
              (issue_member_token server draws user tenant client o) s h2) [
                | inl (visitor, h3) ↦ issue_subscribed_token-eq-ok client s s' found h3
                | inr (direct, h3) ↦ issue_member_token-eq-ok client s s' found h3
              ]
      ]
