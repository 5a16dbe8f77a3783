-- ===== src/Scope/Tests.antt =====
-- Scope strings as clients send them.
use identity_ghost.Prelude.{
  ◌≡◌, refl, Option, some, List, [], ◌∷◌, arith, All, Text, text, Text-discrete, is_space,
}
use identity_ghost.Errors.{ok}
use identity_ghost.Scope.{parse, resolve_scopes}
use identity_ghost.Scope.Tokens.{IsSolid}

abbrev asked : Text
asked = text "  openid, email openid"

parses : parse (some asked) ≡ text "email" ∷ text "openid" ∷ []
unfolding parse Text-discrete
parses = refl

abbrev scopes : List Text
scopes = text "openid" ∷ text "a" ∷ []

scopes-IsSolid : All IsSolid scopes
unfolding is_space
scopes-IsSolid = ground arith

abbrev allowed : Option Text
allowed = some (text "openid")

resolves : resolve_scopes (some asked) allowed ≡ ok (text "openid" ∷ [])
unfolding resolve_scopes Text-discrete
resolves = refl
