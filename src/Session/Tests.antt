-- ===== src/Session/Tests.antt =====
-- Two sessions of one user, one of them invalidated.
use identity_ghost.Prelude.{◌≡◌, ◌≢◌, refl, none, some, [], ◌∷◌, arith, text, Text-discrete}
use identity_ghost.Session.{LoginSession, Table, find_valid_session}

abbrev first : LoginSession
first = record {
  sid = text "s1";
  user_id = text "u";
  tenant_id = text "t";
  auth_time = 3;
  expires_at = 9000;
  invalidated_at = none;
}

abbrev second : LoginSession
second = record {
  sid = text "s2";
  user_id = text "u";
  tenant_id = text "t";
  auth_time = 5;
  expires_at = 9000;
  invalidated_at = none;
}

abbrev sessions : Table
sessions = first ∷ second ∷ []

other_session : text "s2" ≢ text "s1"
other_session h = ground arith

finds_second : find_valid_session (text "u") (text "t") 6000 sessions ≡ some second
unfolding find_valid_session Text-discrete
finds_second = refl
