-- ===== src/Revocation/Laws.antt =====
-- Revocation and logout over the tables.
use identity_ghost.Prelude.{
  ℕ, ◌≡◌, ◌≢◌, refl, ◌∙◌, true, false, not, Option, none, some, [], ◌∷◌, arith, if◌then◌else◌, find,
  find-update_where, All, All-update_where, Text, ◌==◌, or_null, ==_of_eq, Option-cases, Bool-cases,
  inl, inr, ◌⊎◌,
}
use identity_ghost.Errors.{err, oauth, invalid_grant}
use identity_ghost.RefreshToken
use identity_ghost.RefreshToken.{
  RefreshToken, Config, RotateParams, Fresh, by_token, revoke_family, revoke_by_sid,
  consume_and_rotate,
}
use identity_ghost.RefreshToken.Replay.{IsDead, revoke_family-IsDead, revoked_refused}
use identity_ghost.Session.{validate_session, find_session_by_sid}
use identity_ghost.Session.Validity.{invalidated_refused}
use identity_ghost.Revocation.{Stores, revoke, end_session, revoke_given, logout}

module _ (hash : Text → Text) (config : Config) where
  -- A token of another tenant is left alone, with its whole table.
  pub revoke-other_tenant :
      (tenant token : Text) (t : RefreshToken.Table) {e : RefreshToken}
      → by_token hash config token t ≡ some e
      → e.tenant_id ≢ tenant
      → revoke hash config tenant token t ≡ t
  unfolding revoke
  revoke-other_tenant tenant token t found other = ground arith

  -- A token that its tenant has revoked is refused from then on, and, unless it had been revoked
  -- before, so is every other token of its family.
  pub revoke-own_tenant :
      (tenant token : Text) (t : RefreshToken.Table) {e : RefreshToken} (p : RotateParams)
      (fresh : Fresh) (now later : ℕ)
      → by_token hash config token t ≡ some e
      → e.tenant_id ≡ tenant
      → p.plaintext_token ≡ token
      → (consume_and_rotate hash config p fresh now later (revoke hash config tenant token t)
          ≡ (err (oauth invalid_grant), revoke hash config tenant token t))
        × (e.revoked ≡ false → IsDead e.family_id (revoke hash config tenant token t))
  unfolding revoke revoke_family
  revoke-own_tenant tenant token t {e} p fresh now later found own same =
      elim (Bool-cases e.revoked) [
        | inl dead ↦
            let unchanged : revoke hash config tenant token t ≡ t = ground arith in
            rw unchanged (
              revoked_refused hash config p fresh now later t {e = e} (rw same found) dead,
              λ alive. cc,
            )
        | inr alive ↦
            let done : revoke hash config tenant token t ≡ revoke_family e.family_id t =
              ground arith in
            let again : find (λ r. r.token_hash == hash token) (revoke_family e.family_id t)
                ≡ some (record e { revoked = true }) =
              find-update_where (λ r. r.token_hash == hash token) (λ r. r.family_id == e.family_id)
                RefreshToken.revoke t (λ r. refl) found
              ∙ ground (arith, ==_of_eq e.family_id e.family_id refl) in
            rw done (
              revoked_refused hash config p fresh now later (revoke_family e.family_id t)
                  {e = record e { revoked = true }} (rw same again) refl,
              λ _. revoke_family-IsDead e.family_id t,
            )
      ]

-- A token of the session is revoked.
abbrev pub IsEndedRow : Text → RefreshToken → Type 0
IsEndedRow sid r = r.sid ≡ some sid → r.revoked ≡ true

revoke_by_sid-IsEnded :
    (sid : Text) (t : RefreshToken.Table) → All (IsEndedRow sid) (revoke_by_sid sid t)
unfolding revoke_by_sid
revoke_by_sid-IsEnded sid [] = tt
revoke_by_sid-IsEnded sid (r ∷ t) = ((λ e. ground arith), revoke_by_sid-IsEnded sid t)

revoke-IsEnded :
    (hash : Text → Text) (config : Config) (tenant token sid : Text) (t : RefreshToken.Table)
    → All (IsEndedRow sid) t
    → All (IsEndedRow sid) (revoke hash config tenant token t)
unfolding revoke revoke_family
revoke-IsEnded hash config tenant token sid t h =
    elim (Option-cases (by_token hash config token t)) [
      | inl missing ↦ rw (missing, revoke) h
      | inr (e, found) ↦
          rw (found, revoke) (kept e (Bool-cases (e.tenant_id == tenant)) (Bool-cases e.revoked))
    ]
  where
    swept : (family : Text) → All (IsEndedRow sid) (revoke_family family t)
    swept family =
        All-update_where (IsEndedRow sid) (λ r. r.family_id == family) RefreshToken.revoke t
          (λ r k e. refl) h

    kept :
        (e : RefreshToken)
        → (e.tenant_id == tenant ≡ true) ⊎ (e.tenant_id == tenant ≡ false)
        → (e.revoked ≡ true) ⊎ (e.revoked ≡ false)
        → All (IsEndedRow sid) (
            if not (e.tenant_id == tenant)
            then t
            else if e.revoked
            then t
            else revoke_family e.family_id t)
    kept e (inl own) (inl dead) = rw (own, dead) h
    kept e (inl own) (inr alive) = rw (own, alive) (swept e.family_id)
    kept e (inr other) d = rw other h

module _ (hash : Text → Text) (config : Config) where
  revoke_given-sessions :
      (tenant token : Option Text) (s : Stores)
      → (revoke_given hash config tenant token s).sessions ≡ s.sessions
  unfolding revoke_given
  revoke_given-sessions none token s = refl
  revoke_given-sessions (some tenant) none s = refl
  revoke_given-sessions (some tenant) (some token) s = refl

  revoke_given-IsEnded :
      (sid : Text) (tenant token : Option Text) (s : Stores)
      → All (IsEndedRow sid) s.tokens
      → All (IsEndedRow sid) (revoke_given hash config tenant token s).tokens
  unfolding revoke_given
  revoke_given-IsEnded sid none token s h = h
  revoke_given-IsEnded sid (some tenant) none s h = h
  revoke_given-IsEnded sid (some tenant) (some token) s h =
      revoke-IsEnded hash config tenant token sid s.tokens h

  -- A logout that names a session ends it for good and revokes every refresh token of it, whatever
  -- else it is given.
  pub logout-ends_session :
      (tenant token : Option Text) (sid : Text) (now at : ℕ) (s : Stores)
      → sid ≢ []
      → let s' = logout hash config tenant token (some sid) now s in
        (find_session_by_sid sid at s'.sessions ≡ none)
        × (validate_session sid at s'.sessions ≡ err (oauth invalid_grant))
        × All (IsEndedRow sid) s'.tokens
  unfolding logout end_session
  logout-ends_session tenant token [] now at s filled = absurd (filled refl)
  logout-ends_session tenant token (c ∷ cs) now at s filled =
      let sid = c ∷ cs in
      let ended = invalidated_refused sid now at s.sessions in
      let ended_tokens = revoke_by_sid-IsEnded sid s.tokens in
      rw (revoke_given-sessions (or_null tenant) (or_null token) (end_session (some sid) now s)) (
        ended.0,
        ended.1,
        revoke_given-IsEnded sid (or_null tenant) (or_null token) (end_session (some sid) now s)
            ended_tokens,
      )
