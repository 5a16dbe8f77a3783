-- ===== src/IdTokenHint.antt =====
-- srv/src/auth/id-token-hint.validator.ts. The JWT library and the store of signing keys are
-- parameters: `decode` reads a token without checking it, `public_key` finds the key of a tenant, and
-- `verifies` checks a signature and ignores the expiry.
use identity_ghost.Prelude.{
  ◌≡◌, refl, Bool, true, false, not, Option, none, some, List, Text, or_null, includes,
}
use identity_ghost.Errors.{
  Result, ok, ◌>>=◌, ◌>>◌, throw_if, or_throw, bind-eq-ok, oauth, invalid_request,
}

-- The `aud` claim: an array, or anything else (a bare string, or nothing).
pub data Audience : Type 0 where
  array : List Text → Audience
  other : Audience

-- What a token says in its header and payload.
pub record Decoded : Type 0 where
  pub aud : Audience
  pub kid : Option Text
  pub tenant_id : Option Text
  pub sub : Option Text

abbrev pub audience_list : Audience → Option (List Text)
audience_list (array xs) = some xs
audience_list other = none

module _ (decode : Text → Option Decoded) (public_key : Text → Option Text → Option Text)
    (verifies : Text → Text → Bool) where
  unfoldable pub validate : Text → Text → Result Text
  validate id_token_hint expected_client_id = do
    decoded ← or_throw (decode id_token_hint) (oauth invalid_request)
    aud ← or_throw (audience_list decoded.aud) (oauth invalid_request)
    throw_if (not (includes aud expected_client_id)) (oauth invalid_request)
    kid ← or_throw (or_null decoded.kid) (oauth invalid_request)
    key ← or_throw (public_key kid decoded.tenant_id) (oauth invalid_request)
    throw_if (not (verifies id_token_hint key)) (oauth invalid_request)
    or_throw (or_null decoded.sub) (oauth invalid_request)

  -- What a hint that is accepted has passed.
  pub record IsAccepted (id_token_hint client sub : Text) : Type 0 where
    pub decoded : Decoded
    pub audience : List Text
    pub key_id : Text
    pub key : Text
    pub read : decode id_token_hint ≡ some decoded
    pub listed : decoded.aud ≡ array audience
    pub for_client : includes audience client ≡ true
    pub has_kid : or_null decoded.kid ≡ some key_id
    pub key_found : public_key key_id decoded.tenant_id ≡ some key
    pub verified : verifies id_token_hint key ≡ true
    pub subject : or_null decoded.sub ≡ some sub

  or_throw-eq-ok {ℓ} :
      {A : Type ℓ} (o : Option A) {a : A} → or_throw o (oauth invalid_request) ≡ ok a → o ≡ some a
  or_throw-eq-ok (some a) h = cc
  or_throw-eq-ok none h = cc

  throw_if-not-eq-ok :
      (b : Bool) {u : Unit {0}} → throw_if (not b) (oauth invalid_request) ≡ ok u → b ≡ true
  throw_if-not-eq-ok true h = refl
  throw_if-not-eq-ok false h = cc

  audience_list-eq-some : (a : Audience) {xs : List Text} → audience_list a ≡ some xs → a ≡ array xs
  audience_list-eq-some (array xs) h = cc
  audience_list-eq-some other h = cc

  -- A hint is accepted only when it names the client in an array of audiences, its signature
  -- verifies under the key that its header names, and its subject is the one returned.
  pub validate-eq-ok :
      (id_token_hint client : Text) {sub : Text}
      → validate id_token_hint client ≡ ok sub
      → IsAccepted id_token_hint client sub
  unfolding validate
  validate-eq-ok hint client {sub} h =
      let (d, read, h1) = bind-eq-ok (or_throw (decode hint) (oauth invalid_request)) _ h in
      let (aud, listed, h2) =
        bind-eq-ok (or_throw (audience_list d.aud) (oauth invalid_request)) _ h1 in
      let (_, mine, h3) =
        bind-eq-ok (throw_if (not (includes aud client)) (oauth invalid_request)) _ h2 in
      let (kid, named, h4) = bind-eq-ok (or_throw (or_null d.kid) (oauth invalid_request)) _ h3 in
      let (key, known, h5) =
        bind-eq-ok (or_throw (public_key kid d.tenant_id) (oauth invalid_request)) _ h4 in
      let (_, good, h6) =
        bind-eq-ok (throw_if (not (verifies hint key)) (oauth invalid_request)) _ h5 in
      record {
        decoded = d;
        audience = aud;
        key_id = kid;
        key = key;
        read = or_throw-eq-ok _ read;
        listed = audience_list-eq-some d.aud (or_throw-eq-ok _ listed);
        for_client = throw_if-not-eq-ok _ mine;
        has_kid = or_throw-eq-ok _ named;
        key_found = or_throw-eq-ok _ known;
        verified = throw_if-not-eq-ok _ good;
        subject = or_throw-eq-ok _ h6;
      }
