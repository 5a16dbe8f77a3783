-- ===== src/Consent/Tests.antt =====
-- A consent that is widened.
use identity_ghost.Prelude.{
  ◌≡◌, ◌≢◌, ◌||◌, List, [], ◌∷◌, arith, All, Text, text, includes, is_space,
}
use identity_ghost.Scope.Tokens.{IsToken}
use identity_ghost.Consent.{UserConsent, Table, grant_consent}
use identity_ghost.Consent.Grants.{has_scope, has_scope-grant_consent}

abbrev on_record : UserConsent
on_record = record {
  id = text "k1";
  user_id = text "u";
  client_id = text "app";
  granted_scopes = text "openid";
  consent_version = 1;
}

abbrev consents : Table
consents = on_record ∷ []

abbrev approved : List Text
approved = text "email" ∷ []

approved-IsToken : All IsToken approved
unfolding is_space
approved-IsToken = ground arith

has_scope-grant_consent_example :
    has_scope
      (text "u")
      (text "app")
      (grant_consent (text "k2") (text "u") (text "app") approved consents).1
      (text "openid")
    ≡ (has_scope (text "u") (text "app") consents (text "openid")
        || includes approved (text "openid"))
has_scope-grant_consent_example =
    has_scope-grant_consent (text "k2") (text "u") (text "app") approved consents (text "openid")
      approved-IsToken

other_user : text "v" ≢ text "u"
other_user h = ground arith
