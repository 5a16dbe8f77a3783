-- ===== src/RefreshToken/Row.antt =====
-- The rows of srv/src/entity/refresh-token.entity.ts, and what srv/src/auth/refresh-token.service.ts does
-- to them with no hash and no settings of its own: scopes, expiry, the statements of the database.
use identity_ghost.Prelude.{
  ℕ, ◌+◌, ◌++◌, Bool, true, false, ◌&&◌, not, Option, none, some, List, [], ◌∷◌, ltb, min,
  if◌then◌else◌, is_some, filter, find, update_where, all, any, Text, ◌==◌, is_text, includes,
  distinct, split_on, join_space, Parsed, number,
}
use identity_ghost.Errors.{Result, ok, err, oauth, invalid_scope, internal}
use identity_ghost.Scope.{is_nonempty}

pub record RefreshToken : Type 0 where
  pub id : Text
  pub token_hash : Text
  pub family_id : Text
  pub parent_id : Option Text
  pub user_id : Text
  pub client_id : Text
  pub tenant_id : Text
  pub scope : Text
  pub absolute_expires_at : ℕ
  pub expires_at : ℕ
  pub revoked : Bool
  pub used_at : Option ℕ
  pub sid : Option Text

abbrev pub Table : Type 0
Table = List RefreshToken

-- What a method hands to its caller: the plaintext and the row that goes with it.
pub record Issued : Type 0 where
  pub plaintext : Text
  pub row : RefreshToken

pub record Config : Type 0 where
  pub sliding_expiry_ms : ℕ
  pub absolute_expiry_ms : ℕ
  pub grace_window : Parsed

-- `getGraceWindowSeconds`
unfoldable pub grace_window_seconds : Config → ℕ
grace_window_seconds config = elim config.grace_window [ number n ↦ min n 30 | _ ↦ 0 ]

-- `new Set(s.split(" ").filter(Boolean))`
abbrev pub scope_set : Text → List Text
scope_set s = distinct (filter is_nonempty (split_on b' ' s))

unfoldable pub validate_scope_subset : Text → Text → Result Text
unfolding split_on join_space
validate_scope_subset requested_scope record_scope =
    if all (includes (scope_set record_scope)) (scope_set requested_scope)
    then ok (join_space (scope_set requested_scope))
    else err (oauth invalid_scope)

-- `clampExpiry`, at the clock reading `now`.
unfoldable pub clamp_expiry : ℕ → ℕ → ℕ → ℕ
clamp_expiry now sliding_ms absolute_expires_at =
    if ltb (now + sliding_ms) absolute_expires_at then now + sliding_ms else absolute_expires_at

-- The unique constraint on `parent_id`: null never clashes.
abbrev pub same_parent : Option Text → RefreshToken → Bool
same_parent none r = false
same_parent (some p) r = is_text r.parent_id p

-- `repo.save` of a new row; the database refuses a second child of one parent.
unfoldable pub save : RefreshToken → Table → Result (Unit {0}) × Table
save row t = if any (same_parent row.parent_id) t then (err internal, t) else (ok tt, t ++ row ∷ [])

abbrev pub issue : Text → RefreshToken → Result (Unit {0}) × Table → Result Issued × Table
issue plaintext row (ok _, t) = (ok (record { plaintext = plaintext; row = row }), t)
issue plaintext row (err e, t) = (err e, t)

pub record CreateParams : Type 0 where
  pub user_id : Text
  pub client_id : Text
  pub tenant_id : Text
  pub scope : Text
  pub sid : Option Text

pub record RotateParams : Type 0 where
  pub plaintext_token : Text
  pub client_id : Text
  pub requested_scope : Option Text

-- What one call draws at random: the plaintext, the id of the row, and that of a new family.
pub record Fresh : Type 0 where
  pub plaintext : Text
  pub row_id : Text
  pub family : Text

abbrev pub revoke : RefreshToken → RefreshToken
revoke r = record r { revoked = true }

abbrev pub use_at : ℕ → RefreshToken → RefreshToken
use_at now r = record r { used_at = some now }

abbrev pub is_unused : Text → RefreshToken → Bool
is_unused id r = r.id == id && not (is_some r.used_at)

unfoldable pub revoke_family : Text → Table → Table
revoke_family family t = update_where (λ r. r.family_id == family) revoke t

unfoldable pub revoke_by_sid : Text → Table → Table
revoke_by_sid sid t = update_where (λ r. is_text r.sid sid) revoke t

-- What the checks before the consumption decide.
pub data Verdict : Type 0 where
  reject replay consume : Verdict

-- The guards of `consumeAndRotate` on the row that was found, in their order.
unfoldable pub screen : RefreshToken → Text → ℕ → Verdict
screen existing client_id now =
    if existing.revoked
    then reject
    else if ltb existing.expires_at now
    then reject
    else if ltb existing.absolute_expires_at now
    then reject
    else if not (existing.client_id == client_id)
    then reject
    else if is_some existing.used_at
    then replay
    else consume

-- `UPDATE … SET used_at = now WHERE id = :id AND used_at IS NULL`
unfoldable pub mark_used : Text → ℕ → Table → Table
mark_used id now t = update_where (is_unused id) (use_at now) t

abbrev pub by_id : Text → Table → Option RefreshToken
by_id id t = find (λ r. r.id == id) t
