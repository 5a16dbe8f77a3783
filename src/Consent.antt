-- ===== src/Consent.antt =====
-- srv/src/auth/consent.service.ts over the table of srv/src/entity/user-consent.entity.ts.
pub mod Grants
mod Tests
use identity_ghost.Prelude.{
  ℕ, ◌+◌, ◌++◌, Bool, true, false, ◌&&◌, Option, none, some, List, [], ◌∷◌, if◌then◌else◌, find,
  update_where, all, Text, ◌==◌, includes, distinct,
}
use identity_ghost.Scope.{parse, format, union}

pub record UserConsent : Type 0 where
  pub id : Text
  pub user_id : Text
  pub client_id : Text
  pub granted_scopes : Text
  pub consent_version : ℕ

abbrev pub Table : Type 0
Table = List UserConsent

-- `where: {userId, clientId}`
abbrev pub is_for : Text → Text → UserConsent → Bool
is_for user client c = c.user_id == user && c.client_id == client

unfoldable pub find_consent : Text → Text → Table → Option UserConsent
find_consent user client t = find (is_for user client) t

-- The result of `checkConsent`; `required` carries the requested scopes.
pub data Check : Type 0 where
  granted : Check
  required : List Text → Check

unfoldable pub check_consent : Text → Text → List Text → Table → Check
unfolding find_consent
check_consent user client requested t = elim (find_consent user client t) [
  | none ↦ required requested
  | some c ↦
      if all (includes (parse (some c.granted_scopes))) (distinct requested)
      then granted
      else required requested
]

unfoldable pub new_consent : Text → Text → Text → List Text → UserConsent
new_consent id user client approved = record {
  id = id;
  user_id = user;
  client_id = client;
  granted_scopes = format approved;
  consent_version = 1;
}

-- The update of an existing record: the union of the scopes, and the next version.
unfoldable pub widen : List Text → UserConsent → UserConsent
widen approved c = record c {
  granted_scopes = format (union (parse (some c.granted_scopes)) approved);
  consent_version = c.consent_version + 1;
}

-- `grantConsent`; `id` is the new row's. A loaded row is saved over the row that it was loaded from,
-- which is the only one for its user and client.
unfoldable pub grant_consent : Text → Text → Text → List Text → Table → UserConsent × Table
unfolding find_consent new_consent widen
grant_consent id user client approved t = elim (find_consent user client t) [
  | none ↦ (new_consent id user client approved, t ++ new_consent id user client approved ∷ [])
  | some c ↦ (widen approved c, update_where (is_for user client) (λ _. widen approved c) t)
]
