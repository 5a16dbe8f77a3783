-- ===== src/Endpoint/Tests.antt =====
-- GET /authorize with a session and a consent, and silently without the consent.

use identity_ghost.Prelude.{
  ◌≡◌, refl, true, false, none, some, List, [], ◌∷◌, text, Text-discrete, includes,
}
use identity_ghost.Errors.{ok, invalid_request}
use identity_ghost.Client.{Client}
use identity_ghost.Session.{LoginSession}
use identity_ghost.Consent.{UserConsent}
use identity_ghost.AuthCode.{AuthCode}
use identity_ghost.Authorize.{ValidatedAuthorizeRequest, validate_client_id}
use identity_ghost.Authorize.Tests.{platform, strict_client, valid_params, bare_params, validated}
use identity_ghost.Endpoint.{Server, Stores, Request, code_redirect, error_redirect, authorize}
use identity_ghost.Endpoint.Issued.{IsIssued, authorize-eq-code}
use identity_ghost.Endpoint.Refused.{authorize-eq-error}

abbrev pub server : Server
server = record { platform = platform; origin = λ u. some u; base_url = text "https://auth" }

abbrev live_session : LoginSession
live_session = record {
  sid = text "s";
  user_id = text "u";
  tenant_id = text "t";
  auth_time = 3;
  expires_at = 9000;
  invalidated_at = none;
}

abbrev given_consent : UserConsent
given_consent = record {
  id = text "k";
  user_id = text "u";
  client_id = text "app";
  granted_scopes = text "openid";
  consent_version = 1;
}

abbrev pub stores : Stores
stores = record {
  clients = strict_client ∷ [];
  sessions = live_session ∷ [];
  consents = given_consent ∷ [];
  users = text "u" ∷ [];
}

abbrev pub get_code : Request
get_code = record {
  query = valid_params;
  sid = some (text "s");
  now = 5000;
  later = 5001;
  issued = 5002;
  otp = text "123";
  random = text "abc";
}

abbrev get_bare : Request
get_bare = record get_code { query = bare_params }

abbrev pub new_code : AuthCode
new_code = record {
  code = text "123";
  code_challenge = some (text "ch");
  method = some (text "S256");
  user_id = text "u";
  tenant_id = text "t";
  subscriber_tenant_hint = none;
  client_id = text "app";
  redirect_uri = some (text "https://b");
  scope = some (text "openid");
  nonce = none;
  used = false;
  used_at = none;
  expires_at = 305002;
  sid = some (text "s");
  require_auth_time = false;
  resource = none;
}

pub issues :
    authorize server get_code stores []
    ≡ (code_redirect (text "https://b") (text "123") (some (text "st")), new_code ∷ [])
unfolding authorize Text-discrete
issues = refl

authorize-eq-code_example :
    IsIssued server get_code stores [] (text "https://b") (text "123") (new_code ∷ [])
authorize-eq-code_example = authorize-eq-code server get_code stores [] issues

refuses :
    authorize server get_bare stores []
    ≡ (error_redirect (text "https://b") invalid_request (some (text "st")), [])
unfolding authorize Text-discrete
refuses = refl

authorize-eq-error_example :
    ((c : Client) × (validate_client_id (some (text "app")) (strict_client ∷ []) ≡ ok c)
      × (includes c.redirect_uris (text "https://b") ≡ true))
    × (Path (List AuthCode) [] [])
authorize-eq-error_example = authorize-eq-error server get_bare stores [] refuses

abbrev without_consent : Stores
without_consent = record stores { consents = [] }

abbrev get_silent : Request
get_silent = record get_code { query = record valid_params { prompt = some (text "none") } }

abbrev silent_request : ValidatedAuthorizeRequest
silent_request = record validated { prompt = some (text "none") }
