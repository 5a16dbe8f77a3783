-- ===== src/RefreshToken.antt =====
-- srv/src/auth/refresh-token.service.ts over the table of srv/src/entity/refresh-token.entity.ts.
-- `Row` has what needs no hash. The table is a list of rows, oldest first; each method returns its result and the table after it.
-- Times are milliseconds; a method that reads the clock again takes the later reading as `later`.
-- Random tokens and row ids are arguments; `hash` is SHA-256 and `config` the parsed environment.
pub mod Row
pub mod Rows
pub mod Rotation
pub mod Outcomes
pub mod Replay
pub mod Families
pub mod Scopes
pub mod Race
pub mod Tests
unfoldable pub use Row.*
use identity_ghost.Prelude.{
  ℕ, ◌+◌, ◌*◌, ◌++◌, Bool, true, false, ◌&&◌, not, Option, none, some, List, [], ◌∷◌, leb, ltb, min,
  if◌then◌else◌, is_some, filter, find, update_where, all, any, Text, ◌==◌, is_blank, is_text,
  or_null, includes, distinct, split_on, join_space,
}
use identity_ghost.Errors.{Result, ok, err, oauth, invalid_grant, invalid_scope, internal}
use identity_ghost.Scope.{is_nonempty}

module _ (hash : Text → Text) (config : Config) where
  abbrev pub by_token : Text → Table → Option RefreshToken
  by_token plaintext t = find (λ r. r.token_hash == hash plaintext) t

  -- The first row of a new family.
  unfoldable pub first_row : CreateParams → Fresh → ℕ → ℕ → RefreshToken
  first_row p fresh now later = record {
    id = fresh.row_id;
    token_hash = hash fresh.plaintext;
    family_id = fresh.family;
    parent_id = none;
    user_id = p.user_id;
    client_id = p.client_id;
    tenant_id = p.tenant_id;
    scope = p.scope;
    absolute_expires_at = now + config.absolute_expiry_ms;
    expires_at = clamp_expiry later config.sliding_expiry_ms (now + config.absolute_expiry_ms);
    revoked = false;
    used_at = none;
    sid = or_null p.sid;
  }

  unfoldable pub create : CreateParams → Fresh → ℕ → ℕ → Table → Result Issued × Table
  unfolding first_row save clamp_expiry
  create p fresh now later t =
      let row = first_row p fresh now later in issue fresh.plaintext row (save row t)

  -- The child that a replay may be answered with: the window is on, still open, and a child exists.
  unfoldable pub grace_child : RefreshToken → Option ℕ → ℕ → Table → Option RefreshToken
  unfolding grace_window_seconds
  grace_child existing none later t = none
  grace_child existing (some used) later t =
      if ltb 0 (grace_window_seconds config)
        && leb later (used + grace_window_seconds config * 1000)
      then find (λ r. is_text r.parent_id existing.id) t
      else none

  -- `handleReplay`
  unfoldable pub handle_replay : RefreshToken → Text → ℕ → Table → Result Issued × Table
  unfolding grace_child revoke_family
  handle_replay existing caller_plaintext later t =
      elim (grace_child existing existing.used_at later t) [
        | some child ↦ (ok (record { plaintext = caller_plaintext; row = child }), t)
        | none ↦ (err (oauth invalid_grant), revoke_family existing.family_id t)
      ]

  -- `params.requestedScope ? validateScopeSubset(…) : existing.scope`
  unfoldable pub granted_scope : Option Text → RefreshToken → Result Text
  unfolding validate_scope_subset
  granted_scope none existing = ok existing.scope
  granted_scope (some s) existing =
      if is_blank s then ok existing.scope else validate_scope_subset s existing.scope

  unfoldable pub child_row : RefreshToken → Text → Fresh → ℕ → RefreshToken
  unfolding clamp_expiry
  child_row existing scope fresh later = record {
    id = fresh.row_id;
    token_hash = hash fresh.plaintext;
    family_id = existing.family_id;
    parent_id = some existing.id;
    user_id = existing.user_id;
    client_id = existing.client_id;
    tenant_id = existing.tenant_id;
    scope = scope;
    absolute_expires_at = existing.absolute_expires_at;
    expires_at = clamp_expiry later config.sliding_expiry_ms existing.absolute_expires_at;
    revoked = false;
    used_at = none;
    sid = or_null existing.sid;
  }

  -- From the granted scope to the saved child.
  unfoldable pub rotate : RefreshToken → Option Text → Fresh → ℕ → Table → Result Issued × Table
  unfolding granted_scope child_row save
  rotate existing requested fresh later t = elim (granted_scope requested existing) [
    | err e ↦ (err e, t)
    | ok scope ↦
        let row = child_row existing scope fresh later in issue fresh.plaintext row (save row t)
  ]

  -- What follows the atomic update: the row is fetched again to see whether the update landed.
  unfoldable pub after_update :
      RefreshToken → RotateParams → Fresh → ℕ → Table → Result Issued × Table
  unfolding handle_replay rotate
  after_update existing p fresh later t = elim (by_id existing.id t) [
    | none ↦ handle_replay existing p.plaintext_token later t
    | some row ↦
        if is_some row.used_at
        then rotate existing p.requested_scope fresh later t
        else handle_replay existing p.plaintext_token later t
  ]

  -- From the row that was found on, by what the checks decided.
  unfoldable pub proceed :
      Verdict → RefreshToken → RotateParams → Fresh → ℕ → ℕ → Table → Result Issued × Table
  unfolding handle_replay after_update mark_used
  proceed reject existing p fresh now later t = (err (oauth invalid_grant), t)
  proceed replay existing p fresh now later t = handle_replay existing p.plaintext_token later t
  proceed consume existing p fresh now later t =
      after_update existing p fresh later (mark_used existing.id now t)

  unfoldable pub consume_and_rotate : RotateParams → Fresh → ℕ → ℕ → Table → Result Issued × Table
  unfolding proceed screen
  consume_and_rotate p fresh now later t = elim (by_token p.plaintext_token t) [
    | none ↦ (err (oauth invalid_grant), t)
    | some existing ↦ proceed (screen existing p.client_id now) existing p fresh now later t
  ]

  -- `revokeByToken`
  unfoldable pub revoke_by_token : Text → Table → Table
  unfolding revoke_family
  revoke_by_token plaintext t = elim (by_token plaintext t) [
    | none ↦ t
    | some row ↦ revoke_family row.family_id t
  ]
