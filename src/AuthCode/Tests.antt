-- ===== src/AuthCode/Tests.antt =====
-- One authorization code, created, redeemed and presented again.
use identity_ghost.Prelude.{◌≡◌, refl, false, none, some, [], ◌∷◌, text, Text-discrete}
use identity_ghost.Errors.{ok}
use identity_ghost.AuthCode.{AuthCode, Table, CodeParams, use_at, redeem_auth_code, sqlite}

abbrev grant : CodeParams
grant = record {
  user_id = text "u";
  tenant_id = text "t";
  client_id = text "app";
  code_challenge = none;
  method = none;
  subscriber_tenant_hint = none;
  redirect_uri = some (text "https://app");
  scope = some (text "openid");
  nonce = none;
  sid = some (text "s");
  require_auth_time = none;
  resource = none;
}

abbrev issued : AuthCode
issued = record {
  code = text "xyz";
  code_challenge = none;
  method = none;
  user_id = text "u";
  tenant_id = text "t";
  subscriber_tenant_hint = none;
  client_id = text "app";
  redirect_uri = some (text "https://app");
  scope = some (text "openid");
  nonce = none;
  used = false;
  used_at = none;
  expires_at = 300000;
  sid = some (text "s");
  require_auth_time = false;
  resource = none;
}

abbrev codes : Table
codes = issued ∷ []

redeems :
    redeem_auth_code sqlite (text "xyz") 10 codes
    ≡ (ok (some (use_at 10 issued)), use_at 10 issued ∷ [])
unfolding redeem_auth_code Text-discrete
redeems = refl
