-- ===== src/RefreshToken/Tests.antt =====
-- A token family on concrete rows: one rotation, then the calls that must be refused.
use identity_ghost.Prelude.{
  number, ◌≡◌, ◌≢◌, ◌⊎◌, refl, false, none, some, [], ◌∷◌, arith, Text, text, Text-discrete,
}
use identity_ghost.Errors.{ok, err, oauth, invalid_grant, internal}
use identity_ghost.RefreshToken.{
  RefreshToken, Table, Issued, CreateParams, RotateParams, Fresh, Config, use_at, revoke, by_token,
  granted_scope, child_row, mark_used, grace_window_seconds, revoke_family, revoke_by_sid, screen,
  proceed, consume, consume_and_rotate,
}
use identity_ghost.RefreshToken.Rows.{IsValid, consume_and_rotate-IsValid}
use identity_ghost.RefreshToken.Rotation.{IsRotation}
use identity_ghost.RefreshToken.Outcomes.{IsConsumed, IsReplayed, consume_and_rotate-eq-ok}
use identity_ghost.RefreshToken.Replay.{IsDead, replay_after_rotation}
use identity_ghost.RefreshToken.Families.{here, next, session_revoked, revoked_for_ever}
use identity_ghost.RefreshToken.Race.{lost_race}

-- The hash of the tests: distinct tokens have distinct hashes.
abbrev plain : Text → Text
plain x = x

-- The grace window is off.
abbrev settings : Config
settings = record { sliding_expiry_ms = 1000; absolute_expiry_ms = 5000; grace_window = number 0 }

abbrev parent_row : RefreshToken
parent_row = record {
  id = text "r1";
  token_hash = text "one";
  family_id = text "f";
  parent_id = none;
  user_id = text "u";
  client_id = text "app";
  tenant_id = text "t";
  scope = text "a b";
  absolute_expires_at = 5000;
  expires_at = 1000;
  revoked = false;
  used_at = none;
  sid = some (text "s");
}

abbrev start : Table
start = parent_row ∷ []

abbrev request : RotateParams
request = record {
  plaintext_token = text "one";
  client_id = text "app";
  requested_scope = some (text "b");
}

abbrev first_draw : Fresh
first_draw = record { plaintext = text "two"; row_id = text "r2"; family = text "g" }

abbrev second_draw : Fresh
second_draw = record { plaintext = text "three"; row_id = text "r3"; family = text "h" }

abbrev child : RefreshToken
child = record {
  id = text "r2";
  token_hash = text "two";
  family_id = text "f";
  parent_id = some (text "r1");
  user_id = text "u";
  client_id = text "app";
  tenant_id = text "t";
  scope = text "b";
  absolute_expires_at = 5000;
  expires_at = 1011;
  revoked = false;
  used_at = none;
  sid = some (text "s");
}

abbrev reply : Issued
reply = record { plaintext = text "two"; row = child }

abbrev after_rotation : Table
after_rotation = use_at 10 parent_row ∷ child ∷ []

rotates :
    consume_and_rotate plain settings request first_draw 10 11 start ≡ (ok reply, after_rotation)
unfolding consume_and_rotate Text-discrete
rotates = refl

narrows : granted_scope plain settings (some (text "b")) parent_row ≡ ok (text "b")
unfolding granted_scope Text-discrete
narrows = refl

rotation : IsRotation plain settings request first_draw 10 11 start reply after_rotation
unfolding screen child_row mark_used Text-discrete
rotation = record {
  parent = parent_row;
  found = refl;
  live = refl;
  scope = text "b";
  allowed = narrows;
  issued = refl;
  first_child = refl;
  stored = refl;
}

grace_off : grace_window_seconds settings ≡ 0
unfolding grace_window_seconds
grace_off = refl

start-IsValid : IsValid start
start-IsValid = record { bounded = (ground arith, tt); coherent = (tt, tt); parents = (tt, tt) }

abbrev founder : CreateParams
founder = record {
  user_id = text "u";
  client_id = text "app";
  tenant_id = text "t";
  scope = text "a b";
  sid = none;
}

other_family : parent_row.family_id ≢ text "g"
other_family h = ground arith

revoked_found :
    by_token plain settings (text "one") (revoke_by_sid (text "s") (revoke_family (text "f") start))
    ≡ some (revoke parent_row)
unfolding revoke_family revoke_by_sid Text-discrete
revoked_found = refl

revoked_for_ever_example :
    consume_and_rotate plain settings request first_draw 10 11
      (revoke_by_sid (text "s") (revoke_family (text "f") start))
    ≡ (err (oauth invalid_grant), revoke_by_sid (text "s") (revoke_family (text "f") start))
unfolding Text-discrete
revoked_for_ever_example =
    revoked_for_ever plain settings (text "f") start request first_draw 10 11 refl
      (next here (session_revoked (text "s"))) revoked_found refl

replay_after_rotation_example :
    ((consume_and_rotate plain settings request second_draw 20 21 after_rotation).0
      ≡ err (oauth invalid_grant))
    × IsDead
        (text "f")
        (consume_and_rotate plain settings request second_draw 20 21 after_rotation).1
unfolding rotation Text-discrete
replay_after_rotation_example =
    replay_after_rotation plain settings request request first_draw second_draw 10 11 20 21 start
      after_rotation grace_off rotation refl refl (ground arith) (ground arith)

consume_and_rotate-eq-ok_example :
    IsConsumed plain settings request first_draw 10 11 start reply after_rotation
    ⊎ IsReplayed plain settings request first_draw 10 11 start reply after_rotation
consume_and_rotate-eq-ok_example =
    consume_and_rotate-eq-ok plain settings request first_draw 10 11 start after_rotation rotates

consume_and_rotate-IsValid_example :
    IsValid (consume_and_rotate plain settings request first_draw 10 11 start).1
consume_and_rotate-IsValid_example =
    consume_and_rotate-IsValid plain settings request first_draw 10 11 start start-IsValid

lost_race_example :
    proceed plain settings consume parent_row request second_draw 10 12 after_rotation
    ≡ (err internal, mark_used (text "r1") 10 after_rotation)
unfolding rotation Text-discrete
lost_race_example =
    lost_race plain settings request request first_draw second_draw 10 11 10 12 start after_rotation
      rotation narrows
