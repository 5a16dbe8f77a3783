-- ===== src/TokenEndpoint/Tests.antt =====
-- A confidential client that asks for a token of its own, with its secret in the header.
use identity_ghost.Prelude.{◌≡◌, refl, true, false, none, some, [], ◌∷◌, text, Text-discrete}
use identity_ghost.Errors.{ok}
use identity_ghost.AuthCode.{sqlite}
use identity_ghost.ClientAuth.Tests.{scrypt, secrets}
use identity_ghost.Tokens.{client_credentials}
use identity_ghost.TokenIssuance
use identity_ghost.TokenIssuance.Tests.{client, draws, empty, machine_response}
use identity_ghost.TokenEndpoint.{Server, Body, State, dispatch, oauth_token}
use identity_ghost.TokenEndpoint.Authorized.{IsAuthorized, dispatch-IsAuthorized}

abbrev server : Server
server = record {
  issuance = record TokenIssuance.Tests.server {
    clients = record client { is_public = false } ∷ [];
  };
  valid = λ g b. true;
  hashes = record { sha256 = λ t. t; one_way_hash = λ t. t };
  argon2 = λ stored given. false;
  scrypt = scrypt;
  secrets = secrets;
  protocol = λ t. none;
  base64 = λ t. t;
  database = sqlite;
}

abbrev body : Body
body = record {
  grant_type = some (text "client_credentials");
  client_id = text "app";
  client_secret = some (text "new");
  code = [];
  redirect_uri = none;
  code_verifier = none;
  username = [];
  password = [];
  refresh_token = [];
  scope = some (text "profile");
  resource = none;
  subscriber_tenant_hint = none;
}

abbrev before : State
before = record { codes = []; stores = empty }

serves : dispatch server draws (some client_credentials) body before ≡ (ok machine_response, before)
unfolding dispatch Text-discrete
serves = refl

serves_header :
    oauth_token server draws
      (some (text "Basic app:new"))
      (record body { client_id = []; client_secret = none })
      before
    ≡ (ok machine_response, before)
unfolding oauth_token Text-discrete
serves_header = refl

dispatch-IsAuthorized_example :
    IsAuthorized server draws body before before machine_response client_credentials
dispatch-IsAuthorized_example =
    dispatch-IsAuthorized server draws client_credentials body before before serves
