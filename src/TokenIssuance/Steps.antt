-- ===== src/TokenIssuance/Steps.antt =====
-- The state of srv/src/auth/token-issuance.service.ts and the steps that its methods share.
use identity_ghost.Prelude.{
  ℕ, zero, suc, ◌/◌, Bool, true, false, Option, none, some, List, [], ◌∷◌, if◌then◌else◌, Text,
  text, or_null, or_else, includes, find, is_text, Parsed, not_a_number, negative, number,
}
use identity_ghost.Errors.{
  Result, ok, err, or_throw, oauth, bad_request, internal, not_found, invalid_client,
}
use identity_ghost.Scope.{format}
use identity_ghost.Session.{LoginSession, validate_session, create_session}
use identity_ghost.Session
use identity_ghost.RefreshToken.{RotateParams, Issued, create, consume_and_rotate}
use identity_ghost.RefreshToken
use identity_ghost.AuthCode.{find_by_code, has_auth_code_with_hint}
use identity_ghost.AuthCode
use identity_ghost.Client.{Client, Tenant, find_by_client_id_or_alias}
use identity_ghost.Client
use identity_ghost.Directory.{User, Directory}
use identity_ghost.KeyManagement
use identity_ghost.Tokens.{GrantType, password, client_credentials, Signer}

pub record Server : Type 0 where
  pub directory : Directory
  pub clients : Client.Table
  pub codes : AuthCode.Table
  pub keys : KeyManagement.Table
  pub signer : Signer
  pub hash : Text → Text
  pub refresh_config : RefreshToken.Config
  pub session_seconds : ℕ
  pub token_seconds : Parsed
  pub super_tenant_domain : Text

pub record Draws : Type 0 where
  pub jti : Text
  pub sid : Text
  pub refresh : RefreshToken.Fresh
  pub now : ℕ
  pub later : ℕ

pub record Stores : Type 0 where
  pub sessions : Session.Table
  pub tokens : RefreshToken.Table

pub record IssueTokenOptions : Type 0 where
  pub subscriber_tenant_hint : Option Text
  pub auth_code : Option Text
  pub nonce : Option Text
  pub requested_scope : Option Text
  pub grant_type : Option GrantType
  pub sid : Option Text
  pub require_auth_time : Bool
  pub resource : Option Text
  pub oauth_client_id : Option Text

pub record TokenResponse : Type 0 where
  pub access_token : Text
  pub expires_in : ℕ
  pub refresh_token : Option Text
  pub scope : Text
  pub id_token : Option Text

-- A method on the stores: what was written before an exception stays.
abbrev pub M {ℓ} : Type ℓ → Type ℓ
M A = Stores → Result A × Stores

abbrev pub after {ℓ κ} :
    {A : Type ℓ} {B : Type κ} → Result A × Stores → (A → M B) → Result B × Stores
after (ok a, s) next = next a s
after (err e, s) next = (err e, s)

infixl 5 ◌>>=◌
abbrev pub ◌>>=◌ {ℓ κ} : {A : Type ℓ} {B : Type κ} → M A → (A → M B) → M B
(m >>= next) s = after (m s) next

abbrev pub lift {ℓ} : {A : Type ℓ} → Result A → M A
lift r s = (r, s)

-- `client.allowedScopes || 'openid profile email'`
abbrev pub client_scopes : Client → Option Text
client_scopes c = some (or_else (or_null c.allowed_scopes) (text "openid profile email"))

-- The result of `shouldIssueRefreshToken`.
pub data Reason : Type 0 where
  offline_access_scope client_allow_refresh_token refresh_token_not_eligible : Reason

abbrev pub eligible : Reason → Bool
eligible refresh_token_not_eligible = false
eligible _ = true

unfoldable pub should_issue_refresh_token : List Text → Client → GrantType → Reason
should_issue_refresh_token scopes client client_credentials = refresh_token_not_eligible
should_issue_refresh_token scopes client _ =
    if includes scopes (text "offline_access")
    then offline_access_scope
    else if client.allow_refresh_token
    then client_allow_refresh_token
    else refresh_token_not_eligible

-- `formatResponse`: the lifetime must be a positive integer.
unfoldable pub format_response :
    Parsed → Text → Option Text → List Text → Option Text → Result TokenResponse
unfolding format
format_response not_a_number token refresh scopes id = err internal
format_response negative token refresh scopes id = err internal
format_response (number zero) token refresh scopes id = err internal
format_response (number (suc n)) token refresh scopes id = ok (record {
  access_token = token;
  expires_in = suc n;
  refresh_token = or_null refresh;
  scope = format scopes;
  id_token = or_null id;
})

abbrev or_invalid_client : Result Client → Result Client
or_invalid_client (ok c) = ok c
or_invalid_client (err e) = err (oauth invalid_client)

-- `resolveClient`: the client that is named, or the default client of the tenant.
unfoldable pub resolve_client : Client.Table → Tenant → Option Text → Result Client
unfolding find_by_client_id_or_alias
resolve_client clients tenant oauth_client_id = or_invalid_client (elim (or_null oauth_client_id) [
  | none ↦ or_throw (find (λ c. is_text c.alias tenant.domain) clients) not_found
  | some value ↦ find_by_client_id_or_alias value clients
])

-- The session that a token belongs to: its time and its id.
abbrev pub of_session : Result LoginSession → Result (ℕ × Text)
of_session (err e) = err e
of_session (ok s) = ok (s.auth_time, s.sid)

abbrev pub grant_of : Option GrantType → GrantType
grant_of none = password
grant_of (some g) = g

abbrev pub is_password : GrantType → Bool
is_password password = true
is_password _ = false

abbrev pub keep_session : Stores → LoginSession × Session.Table → Result (ℕ × Text) × Stores
keep_session s (session, sessions) =
    (ok (session.auth_time, session.sid), record s { sessions = sessions })

-- A new session for the password grant; otherwise an id that belongs to none, unless a time is required.
abbrev pub new_or_loose : Server → Draws → User → Tenant → Bool → Bool → M (ℕ × Text)
new_or_loose server draws user tenant by_password require_auth_time s =
    if by_password
    then keep_session s (
        create_session draws.sid user.id tenant.id draws.now draws.later server.session_seconds
          s.sessions)
    else if require_auth_time
    then (err bad_request, s)
    else (ok (draws.now / 1000, draws.sid), s)

unfoldable pub session_for : Server → Draws → User → Tenant → IssueTokenOptions → M (ℕ × Text)
unfolding validate_session create_session
session_for server draws user tenant o s = elim (or_null o.sid) [
  | some sid ↦ (of_session (validate_session sid draws.now s.sessions), s)
  | none ↦
      new_or_loose server draws user tenant (is_password (grant_of o.grant_type))
        o.require_auth_time s
]

abbrev pub put_tokens : Stores → Result Issued × RefreshToken.Table → Result (Option Text) × Stores
put_tokens s (ok i, tokens) = (ok (some i.plaintext), record s { tokens = tokens })
put_tokens s (err e, tokens) = (err e, record s { tokens = tokens })

-- The refresh token, if there is to be one.
unfoldable pub refresh_token_for :
    Server → Draws → User → Tenant → Client → Text → List Text → Bool → M (Option Text)
unfolding create format
refresh_token_for server draws user tenant client sid scopes wanted s =
    if wanted
    then put_tokens s (
        create server.hash server.refresh_config
          (record {
            user_id = user.id;
            client_id = client.client_id;
            tenant_id = tenant.id;
            scope = format scopes;
            sid = some sid;
          })
          draws.refresh draws.now draws.later s.tokens)
    else (ok none, s)

-- `[resource, SUPER_TENANT_DOMAIN]`
abbrev pub audience : Server → Option Text → List Text
audience server resource = elim (or_null resource) [
  | none ↦ server.super_tenant_domain ∷ []
  | some r ↦ r ∷ server.super_tenant_domain ∷ []
]

pub data LoginAccess : Type 0 where
  admitted : Option Text → LoginAccess
  choose : List Tenant → LoginAccess
