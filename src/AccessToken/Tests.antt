-- ===== src/AccessToken/Tests.antt =====
-- A token of a user, before and after a rotation of the keys that sign it.
use identity_ghost.Prelude.{
  ◌≡◌, refl, false, true, none, some, [], ◌∷◌, arith, text, Text-discrete, number,
}
use identity_ghost.Errors.{ok}
use identity_ghost.KeyManagement.{TenantKey, Table, Fresh, rotate_key}
use identity_ghost.IdTokenHint.{array}
use identity_ghost.Policies.Tests.{directory}
use identity_ghost.AccessToken.{RawClaims, Token, Libraries, validate_access_token}
use identity_ghost.AccessToken.Accepted.{
  IsAccepted, validate_access_token-IsAccepted, validate_access_token-rotate_key,
}

abbrev pub raw : RawClaims
raw = record {
  iss = some (text "iss");
  sub = some (text "u");
  aud = some (array (text "super" ∷ []));
  exp = some (text "100");
  iat = some (text "1");
  nbf = some (text "1");
  jti = some (text "j");
  tenant_id = text "o";
  kid = text "o:1";
}

abbrev pub token : Token
token = record {
  is_technical = false;
  sub = text "u";
  tenant_id = text "o";
  tenant = text "o";
  scopes = text "openid" ∷ [];
  client_id = text "app";
  aud = text "super" ∷ [];
}

abbrev pub libraries : Libraries
libraries = record { decode = λ _. some raw; schema = λ _. true; verify = λ _ key. some token }

abbrev pub keys : Table
keys =
    record {
      id = text "k1";
      tenant_id = text "o";
      key_version = 1;
      kid = text "o:1";
      public_key = text "pub1";
      private_key = text "priv1";
      is_current = true;
      superseded_at = none;
      deactivated_at = none;
    }
    ∷ []

abbrev drawn : Fresh
drawn = record { row_id = text "k2"; public_key = text "pub2"; private_key = text "priv2" }

abbrev second : TenantKey
second = record {
  id = text "k2";
  tenant_id = text "o";
  key_version = 2;
  kid = text "o:2";
  public_key = text "pub2";
  private_key = text "priv2";
  is_current = true;
  superseded_at = none;
  deactivated_at = none;
}

accepts : validate_access_token libraries directory true keys (text "jwt") ≡ ok token
unfolding validate_access_token Text-discrete
accepts = refl

turned : (rotate_key (λ s. s) (number 2) (text "o") drawn 10 11 keys).0 ≡ ok second
unfolding rotate_key Text-discrete
turned = refl

validate_access_token-IsAccepted_example :
    IsAccepted libraries directory true keys (text "jwt") token
validate_access_token-IsAccepted_example =
    validate_access_token-IsAccepted libraries directory true keys (text "jwt") accepts

validate_access_token-rotate_key_example :
    validate_access_token libraries directory true
      (rotate_key (λ s. s) (number 2) (text "o") drawn 10 11 keys).1
      (text "jwt")
    ≡ ok token
unfolding Text-discrete
validate_access_token-rotate_key_example =
    validate_access_token-rotate_key libraries directory true (λ s. s) drawn 10 11 2 keys
      (text "jwt") raw refl (omega arith) turned accepts
