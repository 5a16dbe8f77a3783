-- ===== src/Revocation.antt =====
-- srv/src/auth/token-revocation.service.ts: revocation of a refresh token, and logout.
pub mod Laws
mod Tests
use identity_ghost.Prelude.{
  ℕ, Bool, true, false, ◌&&◌, not, Option, none, some, List, [], ◌∷◌, if◌then◌else◌, find, Text,
  ◌==◌, or_null,
}
use identity_ghost.RefreshToken
use identity_ghost.RefreshToken.{Config, by_token, revoke_family, revoke_by_sid}
use identity_ghost.Session
use identity_ghost.Session.{invalidate_session}

-- The two tables that a logout writes.
pub record Stores : Type 0 where
  pub sessions : Session.Table
  pub tokens : RefreshToken.Table

-- The part of `logout` under `if (sid)`.
unfoldable pub end_session : Option Text → ℕ → Stores → Stores
unfolding invalidate_session revoke_by_sid
end_session none now s = s
end_session (some sid) now s = record {
  sessions = invalidate_session sid now s.sessions;
  tokens = revoke_by_sid sid s.tokens;
}

module _ (hash : Text → Text) (config : Config) where
  -- `revoke`: unknown tokens, those of another tenant and those revoked before are left alone.
  unfoldable pub revoke : Text → Text → RefreshToken.Table → RefreshToken.Table
  unfolding revoke_family
  revoke tenant_id token t = elim (by_token hash config token t) [
    | none ↦ t
    | some row ↦
        if not (row.tenant_id == tenant_id)
        then t
        else if row.revoked
        then t
        else revoke_family row.family_id t
  ]

  -- The part of `logout` under `if (refreshToken && tenantId)`.
  unfoldable pub revoke_given : Option Text → Option Text → Stores → Stores
  unfolding revoke
  revoke_given (some tenant_id) (some token) s = record s {
    tokens = revoke tenant_id token s.tokens;
  }
  revoke_given _ _ s = s

  -- `logout`; empty strings count as absent.
  unfoldable pub logout : Option Text → Option Text → Option Text → ℕ → Stores → Stores
  unfolding end_session revoke_given
  logout tenant_id refresh_token sid now s =
      revoke_given (or_null tenant_id) (or_null refresh_token) (end_session (or_null sid) now s)
