-- ===== src/TokenEndpoint.antt =====
-- POST /token of srv/src/controllers/oauth-token.controller.ts with its four grants, and `validate` of
-- srv/src/auth/auth.service.ts. `valid` is the schema library, for each grant; `argon2` verifies a password
-- against a stored hash. The log of the deprecated grant is left out.
pub mod Inversion
pub mod Authorized
mod Tests
use identity_ghost.Prelude.{
  ℕ, Bool, true, false, not, Option, none, some, List, map, if◌then◌else◌, Text, text, ◌==◌, find,
  or_else, or_null, is_text,
}
use identity_ghost.Errors.{
  Result, ok, err, or_throw, oauth, bad_request, not_found, invalid_client, invalid_grant,
  unauthorized_client, unsupported_grant_type,
}
use identity_ghost.AuthCode
use identity_ghost.AuthCode.{Database}
use identity_ghost.Client.{Client, find_by_client_id_or_alias}
use identity_ghost.Client.Resource.{validate_resource, is_valid_resource_uri}
use identity_ghost.ClientAuth.{
  ClientSecret, Credentials, parse_basic_auth_header, validate_client_secret,
  validate_client_credentials, found_or_refused,
}
use identity_ghost.CodeGrant.{CodeGrantBody, Hashes, IssueRequest, handle_code_grant}
use identity_ghost.Directory.{User, Directory, find_user, find_tenant}
use identity_ghost.RefreshToken.{RotateParams}
use identity_ghost.Tokens.{
  GrantType, password, client_credentials, refresh_token, authorization_code,
}
use identity_ghost.TokenIssuance.{
  Draws, Stores, IssueTokenOptions, TokenResponse, M, ◌>>=◌, lift, issue_token, refresh,
  issue_client_credentials_token,
}
use identity_ghost.TokenIssuance

pub record Body : Type 0 where
  pub grant_type : Option Text
  pub client_id : Text
  pub client_secret : Option Text
  pub code : Text
  pub redirect_uri : Option Text
  pub code_verifier : Option Text
  pub username : Text
  pub password : Text
  pub refresh_token : Text
  pub scope : Option Text
  pub resource : Option Text
  pub subscriber_tenant_hint : Option Text

pub record Server : Type 0 where
  pub issuance : TokenIssuance.Server
  pub valid : GrantType → Body → Bool
  pub hashes : Hashes
  pub argon2 : Text → Text → Bool
  pub scrypt : Text → Text → Text
  pub secrets : Client → List ClientSecret
  pub protocol : Text → Option Text
  pub base64 : Text → Text
  pub database : Database

pub record State : Type 0 where
  pub codes : AuthCode.Table
  pub stores : Stores

-- `AuthService.validate`
unfoldable pub validate : Server → Text → Text → Result User
validate server email secret = elim (find (λ u. u.email == email) server.issuance.directory.users) [
  | none ↦ err not_found
  | some user ↦
      if not (server.argon2 user.password secret)
      then err (oauth invalid_grant)
      else if user.locked
      then err (oauth invalid_grant)
      else ok user
]

-- A code that was redeemed, with the request that its checks let through.
abbrev pub code_body : Body → CodeGrantBody
code_body b = record {
  code = b.code;
  client_id = b.client_id;
  redirect_uri = b.redirect_uri;
  code_verifier = b.code_verifier;
  scope = b.scope;
}

-- The options that `handleCodeGrant` passes to `issueToken`.
abbrev pub code_options : IssueRequest → IssueTokenOptions
code_options r = record {
  subscriber_tenant_hint = r.subscriber_tenant_hint;
  auth_code = none;
  nonce = r.nonce;
  requested_scope = r.requested_scope;
  grant_type = some authorization_code;
  sid = r.sid;
  require_auth_time = r.require_auth_time;
  resource = r.resource;
  oauth_client_id = some r.oauth_client_id;
}

abbrev pub password_options : Body → Option Text → IssueTokenOptions
password_options b resource = record {
  subscriber_tenant_hint = b.subscriber_tenant_hint;
  auth_code = none;
  nonce = none;
  requested_scope = b.scope;
  grant_type = some password;
  sid = none;
  require_auth_time = false;
  resource = resource;
  oauth_client_id = some b.client_id;
}

-- The schema of a grant, checked first.
abbrev pub shaped : Bool → M (Unit {0})
shaped true = lift (ok tt)
shaped false = lift (err bad_request)

abbrev pub or_unauthorized : Result Client → Result Client
or_unauthorized (ok c) = ok c
or_unauthorized (err e) = err (oauth unauthorized_client)

abbrev pub permits_password : Client → Result Client
permits_password c = if c.allow_password_grant then ok c else err (oauth unauthorized_client)

abbrev pub keep_resource : Text → Result (Unit {0}) → Result (Option Text)
keep_resource r (ok _) = ok (some r)
keep_resource r (err e) = err e

module _ (server : Server) (draws : Draws) where
  -- The resource of a request, checked against the list of a client that has been found.
  abbrev pub resource_of : Text → Result Client → Result (Option Text)
  resource_of r (err e) = err e
  resource_of r (ok c) = keep_resource r (validate_resource server.protocol r c.allowed_resources)

  -- `validateResourceForTokenRequest`
  unfoldable pub validate_resource_for_token_request : Option Text → Text → Result (Option Text)
  unfolding validate_resource find_by_client_id_or_alias
  validate_resource_for_token_request resource client_id = elim (or_null resource) [
    | none ↦ ok none
    | some r ↦ resource_of r (find_by_client_id_or_alias client_id server.issuance.clients)
  ]

  unfoldable pub handle_password_grant : Body → M TokenResponse
  unfolding validate validate_resource_for_token_request issue_token find_by_client_id_or_alias
  handle_password_grant b = do
    u ← shaped (server.valid password b)
    found ← lift (or_unauthorized (find_by_client_id_or_alias b.client_id server.issuance.clients))
    client ← lift (permits_password found)
    user ← lift (validate server b.username b.password)
    resource ← lift (validate_resource_for_token_request b.resource b.client_id)
    issue_token server.issuance draws user client.tenant (password_options b resource)

  -- The format of the resource is tested twice, as validateResource tests it again.
  abbrev pub resource_for : Client → Option Text → Result (Option Text)
  resource_for c none = ok none
  resource_for c (some r) = resource_of r (ok c)

  -- The schema asks for a secret, so none is missing.
  unfoldable pub handle_client_credentials_grant : Body → M TokenResponse
  unfolding validate_client_credentials validate_resource issue_client_credentials_token
  handle_client_credentials_grant b = do
    u ← shaped (server.valid client_credentials b)
    client ← lift (
        validate_client_credentials server.scrypt server.secrets server.issuance.clients draws.now
          b.client_id (or_else b.client_secret (text "")))
    resource ← lift (resource_for client (or_null b.resource))
    issue_client_credentials_token server.issuance draws client b.scope resource

  -- Public clients need no secret.
  abbrev pub authenticates : Client → Option Text → Result Client
  authenticates c secret = if c.is_public then ok c else elim secret [
    | none ↦ err (oauth invalid_client)
    | some s ↦
        if not (validate_client_secret server.scrypt server.secrets draws.now c s)
        then err (oauth invalid_client)
        else ok c
  ]

  abbrev pub rotate_params : Body → Client → RotateParams
  rotate_params b c = record {
    plaintext_token = b.refresh_token;
    client_id = c.client_id;
    requested_scope = b.scope;
  }

  unfoldable pub handle_refresh_token_grant : Body → M TokenResponse
  unfolding validate_client_secret validate_resource_for_token_request find_by_client_id_or_alias
      refresh
  handle_refresh_token_grant b = do
    u ← shaped (server.valid refresh_token b)
    found ← lift (
        found_or_refused server.scrypt server.secrets
          (find_by_client_id_or_alias b.client_id server.issuance.clients))
    client ← lift (authenticates found (or_null b.client_secret))
    resource ← lift (validate_resource_for_token_request b.resource b.client_id)
    refresh server.issuance draws (rotate_params b client) resource (some b.client_id)

  -- What `handleCodeGrant` does once its checks have let a request through: the user and the tenant were
  -- read with them.
  unfoldable pub issue_for : IssueRequest → M TokenResponse
  unfolding issue_token
  issue_for r = do
    user ← lift (find_user server.issuance.directory r.user_id)
    tenant ← lift (find_tenant server.issuance.directory r.tenant_id)
    issue_token server.issuance draws user tenant (code_options r)

  abbrev pub with_codes :
      AuthCode.Table → Result TokenResponse × Stores → Result TokenResponse × State
  with_codes codes (r, stores) = (r, record { codes = codes; stores = stores })

  abbrev pub issue_if : Stores → Result IssueRequest × AuthCode.Table → Result TokenResponse × State
  issue_if stores (err e, codes) = (err e, record { codes = codes; stores = stores })
  issue_if stores (ok r, codes) = with_codes codes (issue_for r stores)

  unfoldable pub exchange_code : Body → State → Result TokenResponse × State
  unfolding handle_code_grant issue_for
  exchange_code b s = issue_if s.stores (
      handle_code_grant (λ _. server.valid authorization_code b) server.hashes
        (map (λ u. u.id) server.issuance.directory.users)
        (map (λ t. t.id) server.issuance.directory.tenants) server.database (code_body b) draws.now
        s.codes)

  -- The credentials of the header replace those of the body.
  abbrev pub with_basic : Body → Option Credentials → Body
  with_basic b none = b
  with_basic b (some c) = record b { client_id = c.username; client_secret = some c.password }

  abbrev pub grant_named : Option Text → Option GrantType
  grant_named g =
      if is_text g (text "authorization_code")
      then some authorization_code
      else if is_text g (text "password")
      then some password
      else if is_text g (text "client_credentials")
      then some client_credentials
      else if is_text g (text "refresh_token")
      then some refresh_token
      else none

  -- The `switch` on the grant type.
  unfoldable pub dispatch : Option GrantType → Body → State → Result TokenResponse × State
  unfolding exchange_code handle_password_grant handle_client_credentials_grant
      handle_refresh_token_grant
  dispatch none b s = (err (oauth unsupported_grant_type), s)
  dispatch (some authorization_code) b s = exchange_code b s
  dispatch (some password) b s = with_codes s.codes (handle_password_grant b s.stores)
  dispatch (some client_credentials) b s =
      with_codes s.codes (handle_client_credentials_grant b s.stores)
  dispatch (some refresh_token) b s = with_codes s.codes (handle_refresh_token_grant b s.stores)

  unfoldable pub oauth_token : Option Text → Body → State → Result TokenResponse × State
  unfolding parse_basic_auth_header dispatch
  oauth_token authorization b s =
      dispatch (grant_named b.grant_type)
        (with_basic b (parse_basic_auth_header server.base64 authorization)) s
