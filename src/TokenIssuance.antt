-- ===== src/TokenIssuance.antt =====
-- srv/src/auth/token-issuance.service.ts. A method runs on the tables that it writes, the sessions and the
-- refresh tokens, which keep what was written when a later step throws; the other tables, the keys, the
-- settings and the libraries are the `Server`. What a call draws at random and the clock give it is
-- `Draws`; logging is left out. `Steps` has the state and the steps that the methods share.
pub mod Steps
pub mod Inversion
pub mod Issue
pub mod Granted
pub mod Eligible
pub mod Renewal
pub mod Burned
pub mod Machine
pub mod Tests
unfoldable pub use Steps.*
use identity_ghost.Prelude.{
  ℕ, zero, suc, ◌/◌, ◌++◌, Bool, true, false, ◌&&◌, ◌||◌, not, Option, none, some, List, [], ◌∷◌,
  if◌then◌else◌, Text, text, or_null, or_else, includes, find, is_text, Parsed, not_a_number,
  negative, number,
}
use identity_ghost.Errors.{
  Exception, Result, ok, err, or_throw, oauth, bad_request, forbidden, internal, not_found,
  invalid_client, invalid_grant,
}
use identity_ghost.Scope.{parse, format, resolve_scopes}
use identity_ghost.Session.{LoginSession, validate_session, create_session}
use identity_ghost.Session
use identity_ghost.RefreshToken.{RotateParams, Issued, create, consume_and_rotate}
use identity_ghost.RefreshToken
use identity_ghost.AuthCode.{find_by_code, has_auth_code_with_hint}
use identity_ghost.AuthCode
use identity_ghost.Client.{Client, Tenant, find_by_client_id_or_alias}
use identity_ghost.Client
use identity_ghost.Directory.{
  User, Directory, LoadedRole, Resolution, unresolved, resolved, ambiguous, find_user, find_tenant,
  is_member, is_user_subscribed_to_tenant, resolve_subscription_tenant_ambiguity, get_member_roles,
}
use identity_ghost.Policies.{get_app_owned_roles_for_user, format_role_names_for_token}
use identity_ghost.KeyManagement
use identity_ghost.Tokens.{
  GrantType, password, client_credentials, refresh_token, authorization_code, Signer,
  create_access_token, create_technical_access_token, generate_id_token,
}

module _ (server : Server) (draws : Draws) where
  open server use {directory, clients, codes, keys, signer}

  -- What follows the access token, the same for members and subscribers: session, refresh token, id
  -- token, response.
  unfoldable pub complete :
      User → Tenant → Client → IssueTokenOptions → Text × List Text → M TokenResponse
  unfolding session_for refresh_token_for should_issue_refresh_token generate_id_token
      format_response
  complete user tenant client o issued = do
    session ← session_for server draws user tenant o
    let reason = should_issue_refresh_token issued.1 client (grant_of o.grant_type)
    refresh ← refresh_token_for server draws user tenant client session.1 issued.1 (eligible reason)
    id ← lift (
        generate_id_token signer keys user tenant.id (or_else o.oauth_client_id client.client_id)
          issued.1 issued.0 o.nonce session.0 session.1 (draws.now / 1000))
    lift (format_response server.token_seconds issued.0 refresh issued.1 id)

  -- Tenant-local roles, then roles of apps.
  abbrev pub role_names : List LoadedRole → Text → Text → List Text
  role_names local user_id tenant_id =
      format_role_names_for_token
        (local ++ get_app_owned_roles_for_user directory user_id tenant_id)

  -- `issueToken` for a direct member.
  unfoldable pub issue_member_token : User → Tenant → Client → IssueTokenOptions → M TokenResponse
  unfolding get_member_roles resolve_scopes create_access_token complete
  issue_member_token user tenant client o = do
    roles ← lift (get_member_roles directory tenant.id user.id)
    scopes ← lift (resolve_scopes o.requested_scope (client_scopes client))
    issued ← lift (
        create_access_token signer keys user tenant none scopes (role_names roles user.id tenant.id)
          (grant_of o.grant_type) (audience server o.resource) client.client_id draws.jti draws.now)
    complete user tenant client o issued

  -- The hint of the options, or that of the code.
  abbrev pub code_hint : Result AuthCode.AuthCode → Option Text
  code_hint (ok row) = or_null row.subscriber_tenant_hint
  code_hint (err e) = none

  unfoldable pub effective_hint : IssueTokenOptions → Option Text
  unfolding has_auth_code_with_hint find_by_code
  effective_hint o = elim (or_null o.subscriber_tenant_hint) [
    | some hint ↦ some hint
    | none ↦ elim (or_null o.auth_code) [
      | none ↦ none
      | some code ↦
          if has_auth_code_with_hint code codes then code_hint (find_by_code code codes) else none
    ]
  ]

  -- `resolvedTenant!`: without a tenant the next access throws.
  abbrev pub subscribing_tenant : Resolution → Result Tenant
  subscribing_tenant (resolved t) = ok t
  subscribing_tenant (ambiguous ts) = err bad_request
  subscribing_tenant unresolved = err internal

  -- `issueSubscribedToken`
  unfoldable pub issue_subscribed_token :
      User → Tenant → Client → IssueTokenOptions → M TokenResponse
  unfolding effective_hint resolve_subscription_tenant_ambiguity get_member_roles resolve_scopes
      create_access_token complete
  issue_subscribed_token user tenant client o = do
    found ←
        lift (resolve_subscription_tenant_ambiguity directory user.id tenant.id (effective_hint o))
    subscriber ← lift (subscribing_tenant found)
    roles ← lift (get_member_roles directory subscriber.id user.id)
    scopes ← lift (resolve_scopes o.requested_scope (client_scopes client))
    issued ← lift (
        create_access_token signer keys user tenant (some subscriber) scopes
          (role_names roles user.id subscriber.id) (grant_of o.grant_type)
          (audience server o.resource) client.client_id draws.jti draws.now)
    complete user tenant client o issued

  unfoldable pub issue_token : User → Tenant → IssueTokenOptions → M TokenResponse
  unfolding is_member is_user_subscribed_to_tenant resolve_client issue_member_token
      issue_subscribed_token
  issue_token user tenant o =
      let subscribed = is_user_subscribed_to_tenant directory user.id tenant.id in
      if not (is_member directory tenant.id user.id) && not subscribed
      then lift (err bad_request)
      else lift (resolve_client clients tenant o.oauth_client_id) >>= λ client.
          if subscribed
          then issue_subscribed_token user tenant client o
          else issue_member_token user tenant client o

  abbrev pub put_rotated : Stores → Result Issued × RefreshToken.Table → Result Issued × Stores
  put_rotated s (r, tokens) = (r, record s { tokens = tokens })

  abbrev pub rotate : RotateParams → M Issued
  rotate p s = put_rotated s (
      consume_and_rotate server.hash server.refresh_config p draws.refresh draws.now draws.later
        s.tokens)

  abbrev pub check_locked : User → Result User
  check_locked user = if user.locked then err (oauth invalid_grant) else ok user

  -- The session of a refresh token, or the time of the call with an id that belongs to none.
  unfoldable pub session_of_record : Option Text → M (ℕ × Text)
  unfolding validate_session
  session_of_record sid s = elim (or_null sid) [
    | some id ↦ (of_session (validate_session id draws.now s.sessions), s)
    | none ↦ (ok (draws.now / 1000, draws.sid), s)
  ]

  -- What follows the rotation.
  unfoldable pub renew : Option Text → Option Text → Issued → M TokenResponse
  unfolding resolve_client get_member_roles parse create_access_token session_of_record
      generate_id_token format_response
  renew resource oauth_client_id i = do
    user ← lift (find_user directory i.row.user_id)
    user ← lift (check_locked user)
    tenant ← lift (find_tenant directory i.row.tenant_id)
    client ← lift (resolve_client clients tenant none)
    roles ← lift (get_member_roles directory tenant.id user.id)
    issued ← lift (
        create_access_token signer keys user tenant none (parse (some i.row.scope))
          (role_names roles user.id tenant.id) refresh_token (audience server resource)
          client.client_id draws.jti draws.now)
    session ← session_of_record i.row.sid
    id ← lift (
        generate_id_token signer keys user tenant.id (or_else oauth_client_id client.client_id)
          issued.1 issued.0 none session.0 session.1 (draws.now / 1000))
    lift (format_response server.token_seconds issued.0 (some i.plaintext) issued.1 id)

  -- `refreshToken`
  unfoldable pub refresh : RotateParams → Option Text → Option Text → M TokenResponse
  unfolding consume_and_rotate renew
  refresh p resource oauth_client_id = rotate p >>= renew resource oauth_client_id

  unfoldable pub issue_client_credentials_token :
      Client → Option Text → Option Text → M TokenResponse
  unfolding resolve_scopes create_technical_access_token format_response
  issue_client_credentials_token client requested resource = do
    scopes ← lift (resolve_scopes requested (client_scopes client))
    token ← lift (
        create_technical_access_token signer keys client scopes (audience server resource) draws.jti
          draws.now)
    lift (format_response server.token_seconds token none scopes none)

  -- The result of `resolveLoginAccess`.
  abbrev pub login_of : Resolution → LoginAccess
  login_of (ambiguous ts) = choose ts
  login_of (resolved t) = admitted (some t.domain)
  login_of unresolved = admitted none

  unfoldable pub resolve_login_access : User → Tenant → Option Text → M LoginAccess
  unfolding is_member is_user_subscribed_to_tenant resolve_subscription_tenant_ambiguity
  resolve_login_access user tenant hint =
      let subscribed = is_user_subscribed_to_tenant directory user.id tenant.id in
      if not (is_member directory tenant.id user.id) && not subscribed
      then lift (err forbidden)
      else if not subscribed
      then lift (ok (admitted none))
      else lift (resolve_subscription_tenant_ambiguity directory user.id tenant.id (or_null hint))
        >>= λ found. lift (ok (login_of found))
