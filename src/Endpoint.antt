-- ===== src/Endpoint.antt =====
-- The handler of GET /authorize in srv/src/controllers/oauth-token.controller.ts, with its helpers.
-- Left out: the log of linked apps, the text of the URLs, and the `flow_id` and CSRF values that the
-- redirects carry.
pub mod Issued
pub mod Refused
pub mod Tests
use identity_ghost.Prelude.{
  ℕ, ◌+◌, ◌/◌, Bool, true, false, ◌&&◌, ◌||◌, not, Option, none, some, List, [], ◌∷◌, leb, ltb,
  if◌then◌else◌, is_some, or_else, Text, text, ◌==◌, or_null, is_text, includes,
}
use identity_ghost.Errors.{
  ErrorCode, Exception, Result, ok, err, ◌>>=◌, ◌>>◌, or_throw, oauth, redirect, bad_request,
  unauthorized, forbidden, not_found, ambiguous_client, internal, invalid_request, login_required,
  access_denied,
}
use identity_ghost.Scope.{resolve_scopes}
use identity_ghost.Client
use identity_ghost.Client.{Client, find_by_client_id_or_alias, is_first_party}
use identity_ghost.Session
use identity_ghost.Session.{LoginSession, find_session_by_sid}
use identity_ghost.Consent
use identity_ghost.Consent.{granted, check_consent}
use identity_ghost.AuthCode
use identity_ghost.AuthCode.{CodeParams, create_auth_token}
use identity_ghost.Authorize.{
  MaxAge, seconds, not_an_integer, negative, AuthorizeQueryParams, ValidatedAuthorizeRequest,
  Platform, is_given, validate_authorize_request,
}

-- The settings and the outside: `origin` is that of the platform's `URL`.
pub record Server : Type 0 where
  pub platform : Platform
  pub origin : Text → Option Text
  pub base_url : Text

-- The tables that the handler reads; `users` are the ids of the users.
pub record Stores : Type 0 where
  pub clients : Client.Table
  pub sessions : Session.Table
  pub consents : Consent.Table
  pub users : List Text

-- One request: its query, the session id of its signed cookie, the readings of the clock, and what a
-- new code draws at random.
pub record Request : Type 0 where
  pub query : AuthorizeQueryParams
  pub sid : Option Text
  pub now : ℕ
  pub later : ℕ
  pub issued : ℕ
  pub otp : Text
  pub random : Text

pub data View : Type 0 where
  login_view consent_view session_confirm_view : View

pub data Response : Type 0 where
  error_redirect : Text → ErrorCode → Option Text → Response
  ui_redirect : View → ValidatedAuthorizeRequest → Response
  code_redirect : Text → Text → Option Text → Response
  failure : Exception → Response

-- What the checks of the handler come to.
pub data Decision : Type 0 where
  refuse : ErrorCode → Decision
  show : View → Decision
  issue : LoginSession → Client → Decision

-- `elapsed > maxAge`, in seconds and on integers; the schema lets no other values of `max_age` pass.
abbrev pub is_expired : Option MaxAge → ℕ → LoginSession → Bool
is_expired (some (seconds n)) later s = ltb (s.auth_time + n) (later / 1000)
is_expired _ later s = false

unfoldable pub resolve_session :
    Option Text → Option MaxAge → ℕ → ℕ → Session.Table → Option LoginSession
unfolding find_session_by_sid
resolve_session sid max_age now later t = elim (or_null sid) [
  | none ↦ none
  | some id ↦ elim (find_session_by_sid id now t) [
    | none ↦ none
    | some s ↦ if is_expired max_age later s then none else some s
  ]
]

abbrev pub is_prompt : ValidatedAuthorizeRequest → Text → Bool
is_prompt v value = is_text v.prompt value

-- `validated.prompt && !supportedPrompts.includes(validated.prompt)`
abbrev pub is_unsupported : ValidatedAuthorizeRequest → Bool
is_unsupported v =
    is_given v.prompt
    && not (is_prompt v (text "none") || is_prompt v (text "login") || is_prompt v (text "consent"))

abbrev pub consents_to : Consent.Check → Bool
consents_to granted = true
consents_to _ = false

-- The last tests: `prompt=consent`, then the consent, then the confirmation of the session.
abbrev pub choose : Bool → Bool → Bool → LoginSession → Client → Decision
choose asks_consent consented confirmed session client =
    if asks_consent
    then (if not confirmed then show session_confirm_view else show consent_view)
    else if not consented
    then show consent_view
    else if confirmed
    then issue session client
    else show session_confirm_view

-- `client.allowedScopes || "openid profile email"`
abbrev pub allowed_or_default : Client → Option Text
allowed_or_default client =
    some (or_else (or_null client.allowed_scopes) (text "openid profile email"))

-- Steps 5 on, with a session: first-party clients need no consent.
unfoldable pub decide_with :
    Server → Request → Stores → ValidatedAuthorizeRequest → LoginSession → Result Decision
unfolding find_by_client_id_or_alias is_first_party resolve_scopes check_consent
decide_with server request stores v session = do
  client ← find_by_client_id_or_alias (or_else request.query.client_id (text "")) stores.clients
  scopes ← resolve_scopes (some v.scope) (allowed_or_default client)
  let first_party = is_first_party server.origin server.base_url client v.redirect_uri
  let consented =
      first_party
      || consents_to (check_consent session.user_id client.client_id scopes stores.consents)
  let confirmed =
      client.tenant.skip_session_confirm || is_text request.query.session_confirmed (text "true")
  ok (choose (is_prompt v (text "consent")) consented confirmed session client)

abbrev pub without_session : ValidatedAuthorizeRequest → Decision
without_session v = if is_prompt v (text "none") then refuse login_required else show login_view

-- Steps 0 to 4.
unfoldable pub decide : Server → Request → Stores → ValidatedAuthorizeRequest → Result Decision
unfolding resolve_session decide_with
decide server request stores v =
    if is_text request.query.consent_denied (text "true")
    then ok (refuse access_denied)
    else if is_text request.query.from_logout (text "true") || is_prompt v (text "login")
    then ok (show login_view)
    else if is_unsupported v
    then ok (refuse invalid_request)
    else elim (resolve_session request.sid v.max_age request.now request.later stores.sessions) [
      | none ↦ ok (without_session v)
      | some session ↦ decide_with server request stores v session
    ]

-- What a code is created with.
unfoldable pub code_params :
    Request → ValidatedAuthorizeRequest → LoginSession → Client → CodeParams
code_params request v session client = record {
  user_id = session.user_id;
  tenant_id = client.tenant.id;
  client_id = or_else request.query.client_id (text "");
  code_challenge = or_null v.code_challenge;
  method =
      if is_given v.code_challenge
      then some (or_else (or_null (some v.code_challenge_method)) (text "plain"))
      else none;
  subscriber_tenant_hint = v.subscriber_tenant_hint;
  redirect_uri = some v.redirect_uri;
  scope = some v.scope;
  nonce = v.nonce;
  sid = some session.sid;
  require_auth_time = some false;
  resource = v.resource;
}

-- The `catch` of the handler.
abbrev pub caught : Exception → Response
caught (redirect uri e state) = error_redirect uri e (or_null state)
caught e = failure e

unfoldable pub issue_code_and_redirect :
    Request
    → Stores
    → ValidatedAuthorizeRequest
    → LoginSession
    → Client
    → AuthCode.Table
    → Response × AuthCode.Table
unfolding code_params create_auth_token
issue_code_and_redirect request stores v session client codes =
    if includes stores.users session.user_id
    then (let (code, codes') =
          create_auth_token (code_params request v session client) request.otp request.random
            request.issued codes in
        (code_redirect v.redirect_uri code (or_null v.state), codes'))
    else (failure not_found, codes)

unfoldable pub respond :
    Request
    → Stores
    → ValidatedAuthorizeRequest
    → Result Decision
    → AuthCode.Table
    → Response × AuthCode.Table
unfolding issue_code_and_redirect
respond request stores v (err e) codes = (caught e, codes)
respond request stores v (ok (refuse e)) codes =
    (error_redirect v.redirect_uri e (or_null v.state), codes)
respond request stores v (ok (show view)) codes = (ui_redirect view v, codes)
respond request stores v (ok (issue session client)) codes =
    issue_code_and_redirect request stores v session client codes

unfoldable pub authorize : Server → Request → Stores → AuthCode.Table → Response × AuthCode.Table
unfolding validate_authorize_request decide respond
authorize server request stores codes =
    elim (validate_authorize_request server.platform request.query stores.clients) [
      | err e ↦ (caught e, codes)
      | ok v ↦ respond request stores v (decide server request stores v) codes
    ]
