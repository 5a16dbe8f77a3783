-- ===== src/Session.antt =====
-- srv/src/auth/login-session.service.ts over the table of srv/src/entity/login-session.entity.ts.
-- `auth_time` is in seconds, the other times in milliseconds.
pub mod Validity
mod Tests
use identity_ghost.Prelude.{
  ℕ, ◌+◌, ◌*◌, ◌/◌, ◌++◌, Bool, true, false, ◌&&◌, ◌||◌, not, Option, none, some, List, [], ◌∷◌,
  leb, ltb, if◌then◌else◌, is_some, filter, find, update_where, Text, ◌==◌,
}
use identity_ghost.Errors.{Result, ok, err, oauth, invalid_grant}

pub record LoginSession : Type 0 where
  pub sid : Text
  pub user_id : Text
  pub tenant_id : Text
  pub auth_time : ℕ
  pub expires_at : ℕ
  pub invalidated_at : Option ℕ

abbrev pub Table : Type 0
Table = List LoginSession

abbrev pub has_sid : Text → LoginSession → Bool
has_sid sid s = s.sid == sid

-- `createSession`: the clock is read twice; `sid` is the new random id.
unfoldable pub new_session : Text → Text → Text → ℕ → ℕ → ℕ → LoginSession
new_session sid user_id tenant_id now later duration_seconds = record {
  sid = sid;
  user_id = user_id;
  tenant_id = tenant_id;
  auth_time = now / 1000;
  expires_at = later + duration_seconds * 1000;
  invalidated_at = none;
}

unfoldable pub create_session : Text → Text → Text → ℕ → ℕ → ℕ → Table → LoginSession × Table
unfolding new_session
create_session sid user_id tenant_id now later duration_seconds t =
    let session = new_session sid user_id tenant_id now later duration_seconds in
    (session, t ++ session ∷ [])

-- The test that a session has ended: it was invalidated, or has expired.
abbrev pub is_over : ℕ → LoginSession → Bool
is_over now s = is_some s.invalidated_at || ltb s.expires_at now

unfoldable pub validate_session : Text → ℕ → Table → Result LoginSession
validate_session sid now t = elim (find (has_sid sid) t) [
  | none ↦ err (oauth invalid_grant)
  | some s ↦ if is_over now s then err (oauth invalid_grant) else ok s
]

abbrev pub invalidate_at : ℕ → LoginSession → LoginSession
invalidate_at now s = record s { invalidated_at = some now }

unfoldable pub invalidate_session : Text → ℕ → Table → Table
invalidate_session sid now t = update_where (has_sid sid) (invalidate_at now) t

-- The rows of a user in a tenant that are not invalidated.
abbrev pub is_active : Text → Text → LoginSession → Bool
is_active user_id tenant_id s =
    s.user_id == user_id && s.tenant_id == tenant_id && not (is_some s.invalidated_at)

-- `findOne({…, order: {authTime: "DESC"}})`: the first row with the latest time. (Between rows of
-- one time the database may choose; the model takes the oldest.)
abbrev pub later_of : LoginSession → Option LoginSession → Option LoginSession
later_of s none = some s
later_of s (some r) = if leb r.auth_time s.auth_time then some s else some r

unfoldable pub latest : List LoginSession → Option LoginSession
latest [] = none
latest (s ∷ t) = later_of s (latest t)

unfoldable pub find_valid_session : Text → Text → ℕ → Table → Option LoginSession
unfolding latest
find_valid_session user_id tenant_id now t =
    elim (latest (filter (is_active user_id tenant_id) t)) [
      | none ↦ none
      | some s ↦ if ltb s.expires_at now then none else some s
    ]

unfoldable pub find_session_by_sid : Text → ℕ → Table → Option LoginSession
find_session_by_sid sid now t = elim (find (has_sid sid) t) [
  | none ↦ none
  | some s ↦ if is_over now s then none else some s
]

unfoldable pub invalidate_all_sessions : Text → Text → ℕ → Table → Table
invalidate_all_sessions user_id tenant_id now t =
    update_where (is_active user_id tenant_id) (invalidate_at now) t
