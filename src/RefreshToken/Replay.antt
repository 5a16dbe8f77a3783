-- ===== src/RefreshToken/Replay.antt =====
-- Refused tokens: revoked ones, those of another client, and replays outside the grace window.
use identity_ghost.Prelude.{
  ℕ, ◌≤◌, ◌≡◌, ◌≢◌, refl, sym, ap, ◌∙◌, true, false, some, [], ◌∷◌, arith, if◌then◌else◌,
  update_where, All, find-append_some, find-update_where, Text, ◌==◌,
}
use identity_ghost.Errors.{err, oauth, invalid_grant}
use identity_ghost.RefreshToken.{
  RefreshToken, Table, is_unused, use_at, Config, Issued, RotateParams, Fresh, reject, replay,
  child_row, revoke_family, mark_used, by_token, handle_replay, grace_child, grace_window_seconds,
  screen, proceed, consume_and_rotate,
}
use identity_ghost.RefreshToken.Rotation.{IsRotation, screen-eq-consume}

-- Every row of the family is revoked.
abbrev pub IsDeadRow : Text → RefreshToken → Type 0
IsDeadRow family r = r.family_id ≡ family → r.revoked ≡ true

abbrev pub IsDead : Text → Table → Type 0
IsDead family t = All (IsDeadRow family) t

pub revoke_family-IsDead : (family : Text) (t : Table) → IsDead family (revoke_family family t)
unfolding revoke_family
revoke_family-IsDead family [] = tt
revoke_family-IsDead family (r ∷ t) = ((λ e. ground arith), revoke_family-IsDead family t)

screen-other_client :
    (e : RefreshToken) (client : Text) (now : ℕ)
    → e.client_id ≢ client
    → screen e client now ≡ reject
unfolding screen
screen-other_client e client now h = ground arith

screen-used :
    (e : RefreshToken) (client : Text) (now used : ℕ)
    → e.revoked ≡ false
    → now ≤ e.expires_at
    → now ≤ e.absolute_expires_at
    → e.client_id ≡ client
    → e.used_at ≡ some used
    → screen e client now ≡ replay
unfolding screen
screen-used e client now used alive sliding absolute own taken = ground arith

module _ (hash : Text → Text) (config : Config) where
  handle_replay-off :
      (e : RefreshToken) (plaintext : Text) (later : ℕ) (t : Table)
      → grace_window_seconds config ≡ 0
      → handle_replay hash config e plaintext later t
        ≡ (err (oauth invalid_grant), revoke_family e.family_id t)
  unfolding handle_replay grace_child
  handle_replay-off e plaintext later t off = ground arith

  -- A token whose row is revoked is refused, and the table stays as it is.
  pub revoked_refused :
      (p : RotateParams) (fresh : Fresh) (now later : ℕ) (t : Table) {e : RefreshToken}
      → by_token hash config p.plaintext_token t ≡ some e
      → e.revoked ≡ true
      → consume_and_rotate hash config p fresh now later t ≡ (err (oauth invalid_grant), t)
  unfolding consume_and_rotate screen proceed
  revoked_refused p fresh now later t found dead = rw (found, consume_and_rotate, dead)

  -- A live token that is presented by another client than its own is refused, and the table stays
  -- as it is: it is not even consumed.
  pub wrong_client_refused :
      (p : RotateParams) (fresh : Fresh) (now later : ℕ) (t : Table) {e : RefreshToken}
      → by_token hash config p.plaintext_token t ≡ some e
      → e.client_id ≢ p.client_id
      → consume_and_rotate hash config p fresh now later t ≡ (err (oauth invalid_grant), t)
  unfolding consume_and_rotate proceed
  wrong_client_refused p fresh now later t {e} found other =
      rw (found, consume_and_rotate, screen-other_client e p.client_id now other)

  -- With the grace window off, a used token that would pass the other checks is refused, and its
  -- whole family is revoked.
  pub replay_revokes :
      (p : RotateParams) (fresh : Fresh) (now later : ℕ) (t : Table) {e : RefreshToken} {used : ℕ}
      → grace_window_seconds config ≡ 0
      → by_token hash config p.plaintext_token t ≡ some e
      → e.revoked ≡ false
      → now ≤ e.expires_at
      → now ≤ e.absolute_expires_at
      → e.client_id ≡ p.client_id
      → e.used_at ≡ some used
      → consume_and_rotate hash config p fresh now later t
        ≡ (err (oauth invalid_grant), revoke_family e.family_id t)
  unfolding consume_and_rotate proceed
  replay_revokes p fresh now later t {e} {used} off found alive sliding absolute client taken =
      rw
        (
          found,
          consume_and_rotate,
          screen-used e p.client_id now used alive sliding absolute client taken,
        )
        (handle_replay-off e p.plaintext_token later t off)

  -- After a rotation the old token is found again, marked as used.
  rotated_found :
      (p : RotateParams) (fresh : Fresh) (now later : ℕ) (t t' : Table) {i : Issued}
      → (r : IsRotation hash config p fresh now later t i t')
      → by_token hash config p.plaintext_token t' ≡ some (use_at now r.parent)
  unfolding mark_used
  rotated_found p fresh now later t t' r =
      let (alive, sliding, absolute, own, unused) =
        screen-eq-consume r.parent p.client_id now r.live in
      let mine : (if is_unused r.parent.id r.parent then use_at now r.parent else r.parent)
          ≡ use_at now r.parent =
        ground arith in
      rw r.stored (
        find-append_some _ (update_where (is_unused r.parent.id) (use_at now) t) _ (
          find-update_where (λ s. s.token_hash == hash p.plaintext_token) (is_unused r.parent.id)
            (use_at now) t (λ s. refl) r.found
          ∙ ap some mine))

  -- After a rotation, with the grace window off, presenting the old token once more before it
  -- expires, by the same client, is refused and kills the family: every row of it, the new child's too, is revoked.
  pub replay_after_rotation :
      (p again : RotateParams) (fresh fresh' : Fresh) (now later now' later' : ℕ) (t t' : Table)
      {i : Issued}
      → grace_window_seconds config ≡ 0
      → (r : IsRotation hash config p fresh now later t i t')
      → again.plaintext_token ≡ p.plaintext_token
      → again.client_id ≡ p.client_id
      → now' ≤ r.parent.expires_at
      → now' ≤ r.parent.absolute_expires_at
      → ((consume_and_rotate hash config again fresh' now' later' t').0 ≡ err (oauth invalid_grant))
        × IsDead i.row.family_id (consume_and_rotate hash config again fresh' now' later' t').1
  unfolding child_row
  replay_after_rotation p again fresh fresh' now later now' later' t t' {i} off r token client le
        le' =
      let (alive, sliding, absolute, own, unused) =
        screen-eq-consume r.parent p.client_id now r.live in
      let found : by_token hash config again.plaintext_token t' ≡ some (use_at now r.parent) =
        rw token (rotated_found p fresh now later t t' r) in
      let outcome =
        replay_revokes again fresh' now' later' t' {used = now} off found alive le le'
          (own ∙ sym client) refl in
      let family : i.row.family_id ≡ r.parent.family_id =
        ap (λ (x : Issued). x.row.family_id) r.issued in
      rw (outcome, family) (refl, revoke_family-IsDead r.parent.family_id t')
