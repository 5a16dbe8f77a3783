-- ===== src/Revocation/Tests.antt =====
-- A session with one refresh token, revoked and logged out.
use identity_ghost.Prelude.{
  number, ◌≡◌, ◌≢◌, refl, none, some, false, [], ◌∷◌, arith, All, Text, text, Text-discrete,
}
use identity_ghost.Errors.{err, oauth, invalid_grant}
use identity_ghost.RefreshToken.{RefreshToken, Config, RotateParams, Fresh, consume_and_rotate}
use identity_ghost.RefreshToken.Replay.{IsDead}
use identity_ghost.Session.{LoginSession, find_session_by_sid, validate_session}
use identity_ghost.Revocation.{Stores, revoke, logout}
use identity_ghost.Revocation.Laws.{IsEndedRow, revoke-own_tenant, logout-ends_session}

abbrev bare : Text → Text
bare x = x

abbrev limits : Config
limits = record { sliding_expiry_ms = 1000; absolute_expiry_ms = 5000; grace_window = number 0 }

abbrev held : RefreshToken
held = record {
  id = text "r1";
  token_hash = text "one";
  family_id = text "f";
  parent_id = none;
  user_id = text "u";
  client_id = text "app";
  tenant_id = text "t";
  scope = text "a";
  absolute_expires_at = 5000;
  expires_at = 1000;
  revoked = false;
  used_at = none;
  sid = some (text "s");
}

abbrev login : LoginSession
login = record {
  sid = text "s";
  user_id = text "u";
  tenant_id = text "t";
  auth_time = 3;
  expires_at = 9000;
  invalidated_at = none;
}

abbrev stores : Stores
stores = record { sessions = login ∷ []; tokens = held ∷ [] }

abbrev use_it : RotateParams
use_it = record { plaintext_token = text "one"; client_id = text "app"; requested_scope = none }

abbrev draw : Fresh
draw = record { plaintext = text "two"; row_id = text "r2"; family = text "g" }

revoke-own_tenant_example :
    (consume_and_rotate bare limits use_it draw 10 11
        (revoke bare limits (text "t") (text "one") stores.tokens)
      ≡ (err (oauth invalid_grant), revoke bare limits (text "t") (text "one") stores.tokens))
    × (held.revoked ≡ false
        → IsDead (text "f") (revoke bare limits (text "t") (text "one") stores.tokens))
unfolding Text-discrete
revoke-own_tenant_example =
    revoke-own_tenant bare limits (text "t") (text "one") stores.tokens use_it draw 10 11 refl refl
      refl

given : text "s" ≢ []
given h = ground arith

logout-ends_session_example :
    let s' = logout bare limits (some (text "t")) (some (text "one")) (some (text "s")) 10 stores in
    (find_session_by_sid (text "s") 20 s'.sessions ≡ none)
    × (validate_session (text "s") 20 s'.sessions ≡ err (oauth invalid_grant))
    × All (IsEndedRow (text "s")) s'.tokens
logout-ends_session_example =
    logout-ends_session bare limits (some (text "t")) (some (text "one")) (text "s") 10 20 stores
      given
