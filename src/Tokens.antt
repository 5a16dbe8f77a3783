-- ===== src/Tokens.antt =====
-- The tokens that the server signs: createUserAccessToken and createSubscribedUserAccessToken of
-- srv/src/auth/auth.service.ts, srv/src/core/technical-token.service.ts, srv/src/auth/id-token.service.ts and
-- srv/src/auth/claims-resolver.service.ts, with getSigningKeyWithKid of
-- srv/src/core/rs256-signing-key-provider.service.ts.
-- `sign` is the JWT library's signature of a payload with a private key and its kid, and `at_hash` the
-- left half of SHA-256 in base64url.
pub mod Claims
use identity_ghost.Prelude.{
  ◌/◌, ℕ, Bool, true, false, not, Option, none, some, List, [], ◌∷◌, ◌++◌, if◌then◌else◌, filter,
  Text, text, ◌==◌, is_blank, or_null, includes, distinct, join_space, Parsed, or_else,
}
use identity_ghost.Errors.{Result, ok, err, ◌>>=◌, ◌>>◌, throw_if, unauthorized}
use identity_ghost.Scope.{sort, insert, text_le, format}
use identity_ghost.Client.{Client, Tenant}
use identity_ghost.Directory.{User}
use identity_ghost.KeyManagement.{get_current_signing_key}
use identity_ghost.KeyManagement

pub data GrantType : Type 0 where
  password client_credentials refresh_token authorization_code : GrantType

pub record AccessClaims : Type 0 where
  pub sub : Text
  pub tenant : Tenant
  pub user_tenant : Option Tenant
  pub roles : List Text
  pub grant_type : GrantType
  pub aud : List Text
  pub jti : Text
  pub nbf : ℕ
  pub scope : Text
  pub client_id : Text
  pub tenant_id : Text

pub record TechnicalClaims : Type 0 where
  pub tenant : Tenant
  pub aud : List Text
  pub jti : Text
  pub nbf : ℕ
  pub scope : Text
  pub client_id : Text
  pub tenant_id : Text

-- What `resolveClaims` adds about the user.
pub record UserClaims : Type 0 where
  pub name : Option Text
  pub email : Option Text
  pub email_verified : Option Bool

pub record IdClaims : Type 0 where
  pub sub : Text
  pub aud : Text
  pub iat : ℕ
  pub auth_time : ℕ
  pub sid : Text
  pub amr : List Text
  pub nonce : Option Text
  pub at_hash : Text
  pub user : UserClaims

-- A payload; `technical` has the subject "oauth".
pub data Payload : Type 0 where
  access : AccessClaims → Payload
  technical : TechnicalClaims → Payload
  identity : IdClaims → Payload

pub record Signer : Type 0 where
  pub sign : Payload → Text → Text → Text
  pub at_hash : Text → Text

-- The keys of `SCOPE_CLAIMS_MAP` and the resolvers of their claims; `sub` is set by the caller.
abbrev pub add_claims : User → Text → UserClaims → UserClaims
add_claims u scope c =
    if scope == text "profile"
    then (if is_blank u.name then c else record c { name = some u.name })
    else if scope == text "email"
    then (if is_blank u.email
        then c
        else record c { email = some u.email; email_verified = some u.verified })
    else c

abbrev pub no_claims : UserClaims
no_claims = record { name = none; email = none; email_verified = none }

-- `resolveClaims`: later scopes only set the same values again, so the order does not matter.
unfoldable pub resolve_claims : List Text → User → UserClaims
resolve_claims [] u = no_claims
resolve_claims (s ∷ scopes) u = add_claims u s (resolve_claims scopes u)

-- `[...new Set(xs)].sort()`
abbrev pub unique_sorted : List Text → List Text
unique_sorted xs = sort (distinct xs)

-- Without `offline_access`, which does not go into a JWT.
abbrev pub jwt_scopes : List Text → List Text
jwt_scopes scopes = filter (λ s. not (s == text "offline_access")) scopes

module _ (signer : Signer) (keys : KeyManagement.Table) where
  abbrev pub sign_with : Text → Payload → Result Text
  sign_with tenant payload =
      get_current_signing_key tenant keys >>= λ k. ok (signer.sign payload k.0 k.1)

  abbrev pub access_claims :
      User
      → Tenant
      → Option Tenant
      → List Text
      → List Text
      → GrantType
      → List Text
      → Text
      → Text
      → ℕ
      → AccessClaims
  access_claims user tenant user_tenant scopes roles grant aud client_id jti now = record {
    sub = user.id;
    tenant = tenant;
    user_tenant = user_tenant;
    roles = unique_sorted roles;
    grant_type = grant;
    aud = aud;
    jti = jti;
    nbf = now / 1000;
    scope = join_space (jwt_scopes (unique_sorted scopes));
    client_id = client_id;
    tenant_id = tenant.id;
  }

  -- The two methods differ in `userTenant` only: `user_tenant` is none in createUserAccessToken. The
  -- result is the token with all scopes.
  unfoldable pub create_access_token :
      User
      → Tenant
      → Option Tenant
      → List Text
      → List Text
      → GrantType
      → List Text
      → Text
      → Text
      → ℕ
      → Result (Text × List Text)
  unfolding get_current_signing_key join_space sort insert text_le
  create_access_token user tenant user_tenant scopes roles grant aud client_id jti now = do
    throw_if (not user.verified) unauthorized
    token ←
        sign_with tenant.id
          (access (access_claims user tenant user_tenant scopes roles grant aud client_id jti now))
    ok (token, unique_sorted scopes)

  abbrev pub technical_claims : Client → List Text → List Text → Text → ℕ → TechnicalClaims
  technical_claims client scopes aud jti now = record {
    tenant = client.tenant;
    aud = aud;
    jti = jti;
    nbf = now / 1000;
    scope = format (text "openid" ∷ text "profile" ∷ text "email" ∷ scopes);
    client_id = client.client_id;
    tenant_id = client.tenant.id;
  }

  unfoldable pub create_technical_access_token :
      Client → List Text → List Text → Text → ℕ → Result Text
  unfolding get_current_signing_key format
  create_technical_access_token client scopes aud jti now =
      sign_with client.tenant_id (technical (technical_claims client scopes aud jti now))

  abbrev pub id_claims : User → Text → List Text → Text → Option Text → ℕ → Text → ℕ → IdClaims
  id_claims user client_id granted access_token nonce auth_time sid iat = record {
    sub = user.id;
    aud = client_id;
    iat = iat;
    auth_time = auth_time;
    sid = sid;
    amr = text "pwd" ∷ [];
    nonce = nonce;
    at_hash = signer.at_hash access_token;
    user = resolve_claims granted user;
  }

  -- `generateIdToken`; without `openid` there is none.
  unfoldable pub generate_id_token :
      User → Text → Text → List Text → Text → Option Text → ℕ → Text → ℕ → Result (Option Text)
  unfolding get_current_signing_key resolve_claims
  generate_id_token user tenant_id client_id granted access_token nonce auth_time sid iat =
      if not (includes granted (text "openid"))
      then ok none
      else sign_with tenant_id
          (identity (id_claims user client_id granted access_token nonce auth_time sid iat))
        >>= λ t. ok (some t)
