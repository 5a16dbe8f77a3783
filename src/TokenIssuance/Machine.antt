-- ===== src/TokenIssuance/Machine.antt =====
-- The tokens of clients that act for themselves.
use identity_ghost.Prelude.{◌≡◌, sym, ◌∙◌, ◌&&◌, Option, none, List, Text, includes}
use identity_ghost.Errors.{ok, bind-eq-ok, ok-injective}
use identity_ghost.Scope.{format, parse, resolve_scopes, requested_or}
use identity_ghost.Scope.Resolving.{resolve_scopes-ok}
use identity_ghost.Client.{Client}
use identity_ghost.KeyManagement.{get_current_signing_key}
use identity_ghost.Tokens.{technical, technical_claims, create_technical_access_token}
use identity_ghost.TokenIssuance.{
  Server, Draws, Stores, TokenResponse, client_scopes, audience, format_response,
  issue_client_credentials_token,
}
use identity_ghost.TokenIssuance.Inversion.{lift-eq-ok, lifted-eq-ok, format_response-eq-ok}

-- A response to client credentials never has a refresh token or an id token, and writes nothing. Its
-- scopes are exactly the requested ones that the client allows, and its access token is signed with the
-- current key of the client's tenant.
pub issue_client_credentials_token-eq-ok :
    (server : Server) (draws : Draws) (client : Client) (requested resource : Option Text)
    (s s' : Stores) {r : TokenResponse}
    → issue_client_credentials_token server draws client requested resource s ≡ (ok r, s')
    → (r.refresh_token ≡ none)
      × (r.id_token ≡ none)
      × (s' ≡ s)
      × ((scopes : List Text) × (private_key kid : Text) × (r.scope ≡ format scopes)
          × ((a : Text)
              → includes scopes a ≡ (
                  includes (requested_or requested (parse (client_scopes client))) a
                  && includes (parse (client_scopes client)) a))
          × (get_current_signing_key client.tenant_id server.keys ≡ ok (private_key, kid))
          × (r.access_token
              ≡ server.signer.sign
                  (technical (
                    technical_claims server.signer server.keys client scopes
                      (audience server resource)
                      draws.jti
                      draws.now))
                  private_key
                  kid))
unfolding issue_client_credentials_token create_technical_access_token
issue_client_credentials_token-eq-ok server draws client requested resource s s' h =
    let (scopes, allowed, h1) =
      lift-eq-ok (resolve_scopes requested (client_scopes client)) _ s h in
    let (token, signed, h2) =
      lift-eq-ok
        (create_technical_access_token server.signer server.keys client scopes
          (audience server resource) draws.jti draws.now)
        _ s h1 in
    let (formatted, same) =
      lifted-eq-ok (format_response server.token_seconds token none scopes none) s h2 in
    let response = format_response-eq-ok server.token_seconds token none scopes none formatted in
    let (k, found, e) =
      bind-eq-ok (get_current_signing_key client.tenant_id server.keys) _ signed in
    (
      response.refresh_token,
      response.id_token,
      sym same,
      (
        scopes,
        k.0,
        k.1,
        response.scope,
        resolve_scopes-ok requested (client_scopes client) allowed,
        found,
        response.access_token ∙ sym (ok-injective e),
      ),
    )
