-- ===== src/Authorize/Tests.antt =====
-- Requests of one client that requires PKCE.
use identity_ghost.Prelude.{
  ◌≡◌, refl, Bool, true, false, Option, none, some, [], ◌∷◌, Text, text, Text-discrete, includes,
}
use identity_ghost.Errors.{ok, err, redirect, invalid_request}
use identity_ghost.Client.{Client}
use identity_ghost.IdTokenHint
use identity_ghost.IdTokenHint.{Decoded, array, IsAccepted, validate-eq-ok}
use identity_ghost.Authorize.{
  AuthorizeQueryParams, ValidatedAuthorizeRequest, Platform, validate_client_id, validate_pkce,
  validate_authorize_request,
}
use identity_ghost.Authorize.Redirects.{redirects_to_registered}
use identity_ghost.Authorize.Bindings.{IsBound, validate-IsBound}

abbrev hint : Decoded
hint = record {
  aud = array (text "app" ∷ []);
  kid = some (text "k");
  tenant_id = some (text "t");
  sub = some (text "u");
}

abbrev decode_hint : Text → Option Decoded
decode_hint s = some hint

abbrev key_of : Text → Option Text → Option Text
key_of kid tenant = some kid

abbrev verifies_all : Text → Text → Bool
verifies_all s key = true

accepts :
    IdTokenHint.validate decode_hint key_of verifies_all (text "jwt") (text "app") ≡ ok (text "u")
unfolding IdTokenHint.validate Text-discrete
accepts = refl

validate-eq-ok_example :
    IsAccepted decode_hint key_of verifies_all (text "jwt") (text "app") (text "u")
validate-eq-ok_example =
    validate-eq-ok decode_hint key_of verifies_all (text "jwt") (text "app") accepts

abbrev pub platform : Platform
platform = record {
  broken = λ _. none;
  protocol = λ _. some (text "https:");
  decode = decode_hint;
  public_key = key_of;
  verifies = verifies_all;
}

abbrev pub strict_client : Client
strict_client = record {
  id = text "1";
  client_id = text "app";
  redirect_uris = text "https://a" ∷ text "https://b" ∷ [];
  allowed_scopes = some (text "openid");
  is_public = true;
  require_pkce = true;
  pkce_method_used = none;
  allow_password_grant = false;
  allow_refresh_token = true;
  alias = none;
  allowed_resources = none;
  tenant_id = text "t";
  tenant = record { id = text "t"; domain = text "t.example"; skip_session_confirm = true };
}

abbrev pub lax_client : Client
lax_client = record strict_client { require_pkce = false; pkce_method_used = some (text "S256") }

abbrev pub valid_params : AuthorizeQueryParams
valid_params = record {
  response_type = some (text "code");
  client_id = some (text "app");
  redirect_uri = some (text "https://b");
  scope = some (text "openid");
  state = some (text "st");
  code_challenge = some (text "ch");
  code_challenge_method = some (text "S256");
  nonce = none;
  prompt = none;
  max_age = none;
  resource = none;
  id_token_hint = none;
  from_logout = none;
  session_confirmed = none;
  consent_denied = none;
  subscriber_tenant_hint = none;
}

abbrev pub bare_params : AuthorizeQueryParams
bare_params = record valid_params { code_challenge = none }

abbrev pub validated : ValidatedAuthorizeRequest
validated = record {
  client_id = text "app";
  redirect_uri = text "https://b";
  response_type = some (text "code");
  scope = text "openid";
  state = some (text "st");
  code_challenge = some (text "ch");
  code_challenge_method = text "S256";
  nonce = none;
  prompt = none;
  max_age = none;
  resource = none;
  id_token_hint_sub = none;
  subscriber_tenant_hint = none;
}

passes : validate_authorize_request platform valid_params (strict_client ∷ []) ≡ ok validated
unfolding validate_authorize_request Text-discrete
passes = refl

validate-IsBound_example : IsBound platform valid_params (strict_client ∷ []) validated
validate-IsBound_example = validate-IsBound platform valid_params (strict_client ∷ []) passes

fails :
    validate_authorize_request platform bare_params (strict_client ∷ [])
    ≡ err (redirect (text "https://b") invalid_request (some (text "st")))
unfolding validate_authorize_request Text-discrete
fails = refl

redirects_to_registered_example :
    (c : Client) × (validate_client_id (some (text "app")) (strict_client ∷ []) ≡ ok c)
    × (includes c.redirect_uris (text "https://b") ≡ true)
redirects_to_registered_example =
    redirects_to_registered platform bare_params (strict_client ∷ []) fails

pkce_passes :
    validate_pkce strict_client (some (text "ch")) (some (text "S256")) (text "https://b") none
    ≡ ok (some (text "ch"), text "S256")
unfolding validate_pkce Text-discrete
pkce_passes = refl
