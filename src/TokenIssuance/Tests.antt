-- ===== src/TokenIssuance/Tests.antt =====
-- Tokens for a user who is a member of a subscribing tenant, and the refresh that follows.
use identity_ghost.Prelude.{
  ◌≡◌, ◌⊎◌, refl, true, false, none, some, [], ◌∷◌, text, Text-discrete, number,
}
use identity_ghost.Errors.{Exception, ok, err, forbidden}
use identity_ghost.Directory.{is_member}
use identity_ghost.RefreshToken.{RefreshToken, RotateParams, Issued, consume_and_rotate}
use identity_ghost.RefreshToken
use identity_ghost.Client.{Client}
use identity_ghost.KeyManagement.{TenantKey}
use identity_ghost.Policies.Tests.{owner, ann, directory}
use identity_ghost.TokenIssuance.{
  Server, Draws, Stores, IssueTokenOptions, TokenResponse, issue_token, refresh,
  issue_client_credentials_token,
}
use identity_ghost.TokenIssuance.Granted.{IsGranted, issue_token-IsGranted}
use identity_ghost.TokenIssuance.Eligible.{IsRenewable, issue_token-refresh}
use identity_ghost.TokenIssuance.Renewal.{IsRenewed, refresh-IsRenewed}
use identity_ghost.TokenIssuance.Burned.{outside, refresh-burned}

abbrev pub client : Client
client = record {
  id = text "1";
  client_id = text "app";
  redirect_uris = [];
  allowed_scopes = some (text "offline_access profile");
  is_public = true;
  require_pkce = true;
  pkce_method_used = none;
  allow_password_grant = false;
  allow_refresh_token = false;
  alias = some (text "o.com");
  allowed_resources = none;
  tenant_id = text "o";
  tenant = owner;
}

abbrev key : TenantKey
key = record {
  id = text "k";
  tenant_id = text "o";
  key_version = 1;
  kid = text "kid";
  public_key = text "pub";
  private_key = text "priv";
  is_current = true;
  superseded_at = none;
  deactivated_at = none;
}

abbrev pub server : Server
server = record {
  directory = directory;
  clients = client ∷ [];
  codes = [];
  keys = key ∷ [];
  signer = record { sign = λ p private_key kid. private_key; at_hash = λ t. t };
  hash = λ t. t;
  refresh_config = record {
    sliding_expiry_ms = 1000;
    absolute_expiry_ms = 5000;
    grace_window = number 0;
  };
  session_seconds = 60;
  token_seconds = number 3600;
  super_tenant_domain = text "super";
}

-- The same with `ann` a member of the owner as well.
abbrev member_server : Server
member_server = record server {
  directory = record directory {
    members = record { tenant_id = text "o"; user_id = text "u" } ∷ [];
  };
}

abbrev pub draws : Draws
draws = record {
  jti = text "j";
  sid = text "s";
  refresh = record { plaintext = text "two"; row_id = text "r2"; family = text "f" };
  now = 10;
  later = 11;
}

abbrev pub empty : Stores
empty = record { sessions = []; tokens = [] }

abbrev options : IssueTokenOptions
options = record {
  subscriber_tenant_hint = none;
  auth_code = none;
  nonce = none;
  requested_scope = some (text "offline_access");
  grant_type = none;
  sid = none;
  require_auth_time = false;
  resource = none;
  oauth_client_id = some (text "app");
}

abbrev response : TokenResponse
response = record {
  access_token = text "priv";
  expires_in = 3600;
  refresh_token = some (text "two");
  scope = text "offline_access";
  id_token = none;
}

abbrev stored : Stores
stored = (issue_token server draws ann owner options empty).1

issues : issue_token server draws ann owner options empty ≡ (ok response, stored)
unfolding issue_token Text-discrete
issues = refl

issue_token-IsGranted_example : IsGranted server draws ann owner options response
issue_token-IsGranted_example =
    issue_token-IsGranted server draws ann owner options empty stored issues

issue_token-refresh_example :
    IsRenewable server draws ann owner options response empty stored
    ⊎ ((response.refresh_token ≡ none) × (stored.tokens ≡ empty.tokens))
issue_token-refresh_example = issue_token-refresh server draws ann owner options empty stored issues

abbrev renewal : RotateParams
renewal = record { plaintext_token = text "two"; client_id = text "app"; requested_scope = none }

abbrev draws_2 : Draws
draws_2 = record draws {
  refresh = record { plaintext = text "three"; row_id = text "r3"; family = text "g" };
  now = 20;
  later = 21;
}

abbrev row : RefreshToken
row = record {
  id = text "r2";
  token_hash = text "two";
  family_id = text "f";
  parent_id = none;
  user_id = text "u";
  client_id = text "app";
  tenant_id = text "o";
  scope = text "profile";
  absolute_expires_at = 5000;
  expires_at = 1000;
  revoked = false;
  used_at = none;
  sid = none;
}

abbrev renewable : Stores
renewable = record { sessions = []; tokens = row ∷ [] }

abbrev child : RefreshToken
child = record row {
  id = text "r3";
  token_hash = text "three";
  parent_id = some (text "r2");
  expires_at = 1021;
}

abbrev after_turn : RefreshToken.Table
after_turn = record row { used_at = some 20 } ∷ child ∷ []

turns :
    consume_and_rotate server.hash server.refresh_config renewal draws_2.refresh 20 21
      renewable.tokens
    ≡ (ok (record { plaintext = text "three"; row = child }), after_turn)
unfolding consume_and_rotate Text-discrete
turns = refl

abbrev renewed_response : TokenResponse
renewed_response = record {
  access_token = text "priv";
  expires_in = 3600;
  refresh_token = some (text "three");
  scope = text "profile";
  id_token = none;
}

renews :
    refresh member_server draws_2 renewal none none renewable
    ≡ (ok renewed_response, record renewable { tokens = after_turn })
unfolding refresh Text-discrete
renews = refl

refresh-IsRenewed_example :
    (i : Issued) × (consume_and_rotate member_server.hash member_server.refresh_config renewal
        draws_2.refresh 20 21 renewable.tokens
      ≡ (ok i, after_turn))
    × IsRenewed member_server draws_2 none none i
        (record renewable { tokens = after_turn })
        (record renewable { tokens = after_turn })
        renewed_response
    × (renewable.sessions ≡ renewable.sessions)
refresh-IsRenewed_example =
    refresh-IsRenewed member_server draws_2 none none renewal renewable
      (record renewable { tokens = after_turn }) renews

refresh-burned_example :
    (e : Exception) × (refresh server draws_2 renewal none none renewable
      ≡ (err e, record renewable { tokens = after_turn }))
unfolding is_member Text-discrete
refresh-burned_example =
    refresh-burned server draws_2 none none renewal renewable
      (record { plaintext = text "three"; row = child }) after_turn turns (outside refl)

burns :
    refresh server draws_2 renewal none none renewable
    ≡ (err forbidden, record renewable { tokens = after_turn })
unfolding refresh Text-discrete
burns = refl

abbrev pub machine_response : TokenResponse
machine_response = record {
  access_token = text "priv";
  expires_in = 3600;
  refresh_token = none;
  scope = text "profile";
  id_token = none;
}

serves :
    issue_client_credentials_token server draws client (some (text "profile")) none empty
    ≡ (ok machine_response, empty)
unfolding issue_client_credentials_token Text-discrete
serves = refl
