-- ===== src/TokenIssuance/Granted.antt =====
-- What an access token grants, and to whom.
use identity_ghost.Prelude.{◌≡◌, ap, ◌∙◌, true, ◌&&◌, Option, List, Text, includes}
use identity_ghost.Errors.{ok}
use identity_ghost.Scope.{format, parse, requested_or}
use identity_ghost.Scope.Resolving.{resolve_scopes-ok}
use identity_ghost.Client.{Client, Tenant}
use identity_ghost.Directory.{User}
use identity_ghost.KeyManagement.{get_current_signing_key}
use identity_ghost.Tokens.{access, access_claims, unique_sorted}
use identity_ghost.Tokens.Claims.{create_access_token-eq-ok}
use identity_ghost.TokenIssuance.{
  Server, Draws, Stores, IssueTokenOptions, TokenResponse, grant_of, client_scopes, resolve_client,
  audience, issue_token,
}
use identity_ghost.TokenIssuance.Issue.{IsHome, issue_token-eq-ok}

module _ (server : Server) (draws : Draws) (user : User) (tenant : Tenant)
    (o : IssueTokenOptions) where
  pub record IsGranted (r : TokenResponse) : Type 0 where
    pub client : Client
    pub found : resolve_client server.clients tenant o.oauth_client_id ≡ ok client
    pub verified : user.verified ≡ true
    pub user_tenant : Option Tenant
    pub home : IsHome server draws user tenant o user_tenant
    pub scopes : List Text
    pub scope : r.scope ≡ format (unique_sorted scopes)
    pub exactly :
        (a : Text)
        → includes scopes a ≡ (
            includes (requested_or o.requested_scope (parse (client_scopes client))) a
            && includes (parse (client_scopes client)) a)
    pub roles : List Text
    pub private_key : Text
    pub kid : Text
    pub current : get_current_signing_key tenant.id server.keys ≡ ok (private_key, kid)
    pub token :
        r.access_token
        ≡ server.signer.sign
            (access (
              access_claims server.signer server.keys user tenant user_tenant scopes roles
                (grant_of o.grant_type)
                (audience server o.resource)
                client.client_id
                draws.jti
                draws.now))
            private_key
            kid

  -- When a token is issued to a user, the client was found, the address of the user is verified, and the
  -- user is a member of the issuing tenant or of a tenant that has subscribed to an app of it, which
  -- the token then names. The scopes of the response are exactly the requested ones that the client
  -- allows. The access token is signed with the current key of the issuing tenant, over claims that
  -- name this user, this tenant and these scopes (but for `offline_access`).
  pub issue_token-IsGranted :
      (s s' : Stores) {r : TokenResponse}
      → issue_token server draws user tenant o s ≡ (ok r, s')
      → IsGranted r
  issue_token-IsGranted s s' h =
      let i = issue_token-eq-ok server draws user tenant o s s' h in
      let (verified, all_scopes, (private_key, kid, current, token)) =
        create_access_token-eq-ok server.signer server.keys user tenant i.user_tenant i.scopes
          i.roles (grant_of o.grant_type) (audience server o.resource) i.client.client_id draws.jti
          draws.now i.signed in
      record {
        client = i.client;
        found = i.found;
        verified = verified;
        user_tenant = i.user_tenant;
        home = i.home;
        scopes = i.scopes;
        scope = i.completed.response.scope ∙ ap (λ xs. format xs) all_scopes;
        exactly = resolve_scopes-ok o.requested_scope (client_scopes i.client) i.allowed;
        roles = i.roles;
        private_key = private_key;
        kid = kid;
        current = current;
        token = i.completed.response.access_token ∙ token;
      }
