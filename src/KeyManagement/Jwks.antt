-- ===== src/KeyManagement/Jwks.antt =====
-- srv/src/services/jwks.service.ts: the key set that a tenant publishes. The numbers of an RSA key are what
-- the platform's `createPublicKey` exports; the text of the JSON and its hash are left out.
use identity_ghost.Prelude.{
  ◌≡◌, ◌∙◌, ap, ◌||◌, List, [], ◌∷◌, arith, filter, find, any, map, Text, ◌==◌, is_some,
}
use identity_ghost.Errors.{is_ok}
use identity_ghost.KeyManagement.{
  TenantKey, Table, is_active, has_kid, insert, oldest_first, get_public_key_by_kid,
}

pub record Jwk : Type 0 where
  pub kid : Text
  pub n : Text
  pub e : Text

module _ (export : Text → Text × Text) where
  abbrev pub pem_to_jwk : TenantKey → Jwk
  pem_to_jwk k = record { kid = k.kid; n = (export k.public_key).0; e = (export k.public_key).1 }

  unfoldable pub get_jwks : Text → Table → List Jwk
  unfolding oldest_first
  get_jwks tenant t = map pem_to_jwk (oldest_first (filter (is_active tenant) t))

  any-insert :
      (kid : Text) (k : TenantKey) (t : Table)
      → any (λ j. j.kid == kid) (map pem_to_jwk (insert k t))
        ≡ (k.kid == kid || any (λ j. j.kid == kid) (map pem_to_jwk t))
  any-insert kid k [] = ground arith
  any-insert kid k (l ∷ t) = ground (arith, any-insert kid k t)

  any-oldest_first :
      (kid : Text) (t : Table)
      → any (λ j. j.kid == kid) (map pem_to_jwk (oldest_first t)) ≡ any (λ k. k.kid == kid) t
  unfolding oldest_first
  any-oldest_first kid [] = ground arith
  any-oldest_first kid (k ∷ t) =
      any-insert kid k (oldest_first t) ∙ ap (λ b. k.kid == kid || b) (any-oldest_first kid t)

  any-active :
      (kid tenant : Text) (t : Table)
      → any (λ k. k.kid == kid) (filter (is_active tenant) t)
        ≡ is_some (find (has_kid kid tenant) t)
  any-active kid tenant [] = ground arith
  any-active kid tenant (k ∷ t) = ground (arith, any-active kid tenant t)

  -- A tenant publishes a key under a `kid` exactly if the server itself verifies tokens of the tenant that
  -- name this `kid`.
  pub get_jwks-get_public_key_by_kid :
      (kid tenant : Text) (t : Table)
      → any (λ j. j.kid == kid) (get_jwks tenant t) ≡ is_ok (get_public_key_by_kid kid tenant t)
  unfolding get_jwks get_public_key_by_kid
  get_jwks-get_public_key_by_kid kid tenant t =
      any-oldest_first kid (filter (is_active tenant) t) ∙ any-active kid tenant t ∙ ground arith
