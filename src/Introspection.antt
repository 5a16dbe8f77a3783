-- ===== src/Introspection.antt =====
-- srv/src/auth/token-introspection.service.ts, with the checks of srv/src/controllers/introspection.controller.ts.
-- Errors of the database are not modelled, so what is caught are the exceptions of the callees.
pub mod Laws
pub mod Failures
mod Tests
use identity_ghost.Prelude.{
  ℕ, Bool, true, false, not, Option, none, some, List, if◌then◌else◌, Text, ◌==◌, is_blank, or_null,
  trim,
}
use identity_ghost.Errors.{
  Exception, Result, ok, err, ◌>>=◌, oauth, invalid_client, invalid_request,
}
use identity_ghost.Scope.{format}
use identity_ghost.Client.{Client, Table, find_by_client_id_or_alias}
use identity_ghost.Directory.{Directory}
use identity_ghost.KeyManagement
use identity_ghost.ClientAuth.{
  ClientSecret, Credentials, parse_basic_auth_header, validate_client_secret,
  validate_client_credentials,
}
use identity_ghost.AccessToken.{RawClaims, Token, Libraries, validate_access_token}

pub record Active : Type 0 where
  pub sub : Text
  pub scope : Text
  pub client_id : Text
  pub aud : List Text
  pub exp : Option Text
  pub iat : Option Text

-- `IntrospectionResponse`
pub data Response : Type 0 where
  inactive : Response
  active : Active → Response

pub record Server : Type 0 where
  pub scrypt : Text → Text → Text
  pub secrets : Client → List ClientSecret
  pub clients : Table
  pub libraries : Libraries
  pub directory : Directory
  pub membership_check_enabled : Bool
  pub keys : KeyManagement.Table
  pub base64 : Text → Text

-- `e instanceof OAuthException`
abbrev pub is_oauth : Exception → Bool
is_oauth (oauth _) = true
is_oauth _ = false

-- The body and the header of the request.
pub record IntrospectBody : Type 0 where
  pub token : Option Text
  pub client_id : Option Text
  pub client_secret : Option Text
  pub authorization : Option Text

module _ (server : Server) (now : ℕ) where
  open server use {scrypt, secrets, clients}

  -- The fallback with the credentials of a tenant; an exception is `invalid_client` either way.
  abbrev pub second_path : Result Client → Result Text
  second_path (ok c) = ok c.id
  second_path (err (oauth code)) = err (oauth code)
  second_path (err e) = err (oauth invalid_client)

  abbrev pub first_path : Text → Text → Result Client → Result Text
  first_path client_id secret (ok c) =
      if not (validate_client_secret scrypt secrets now c secret)
      then err (oauth invalid_client)
      else ok c.tenant_id
  first_path client_id secret (err e) =
      if is_oauth e
      then err e
      else second_path (validate_client_credentials scrypt secrets clients now client_id secret)

  unfoldable pub authenticate_client : Text → Text → Result Text
  unfolding find_by_client_id_or_alias validate_client_secret validate_client_credentials
  authenticate_client client_id secret =
      first_path client_id secret (find_by_client_id_or_alias client_id clients)

  -- `buildActiveResponse`; where decoding throws, the caller catches.
  abbrev pub build_active_response : Token → Option RawClaims → Response
  build_active_response t none = inactive
  build_active_response t (some raw) = active (record {
    sub = t.sub;
    scope = format t.scopes;
    client_id = t.client_id;
    aud = t.aud;
    exp = raw.exp;
    iat = raw.iat;
  })

  abbrev pub for_tenant : Text → Text → Result Token → Response
  for_tenant token tenant (err e) = inactive
  for_tenant token tenant (ok t) =
      if not (t.tenant == tenant)
      then inactive
      else build_active_response t (server.libraries.decode token)

  abbrev pub respond : Text → Result Text → Result Response
  respond token (err e) = if is_oauth e then err e else ok inactive
  respond token (ok tenant) = ok (
      for_tenant token tenant (
        validate_access_token server.libraries server.directory server.membership_check_enabled
          server.keys token))

  unfoldable pub introspect : Text → Text → Text → Result Response
  unfolding authenticate_client validate_access_token format
  introspect client_id secret token = respond token (authenticate_client client_id secret)

  abbrev pub both_or_refused : Option Text → Option Text → Text → Result Response
  both_or_refused (some client_id) (some secret) token = introspect client_id secret token
  both_or_refused _ _ token = err (oauth invalid_client)

  abbrev pub with_credentials : IntrospectBody → Option Credentials → Text → Result Response
  with_credentials body none token =
      both_or_refused (or_null body.client_id) (or_null body.client_secret) token
  with_credentials body (some c) token =
      both_or_refused (or_null (some c.username)) (or_null (some c.password)) token

  -- POST /api/oauth/introspect
  unfoldable pub handle_introspect : IntrospectBody → Result Response
  unfolding introspect parse_basic_auth_header trim
  handle_introspect body = elim body.token [
    | none ↦ err (oauth invalid_request)
    | some token ↦
        if is_blank (trim token)
        then err (oauth invalid_request)
        else with_credentials body (parse_basic_auth_header server.base64 body.authorization) token
  ]
