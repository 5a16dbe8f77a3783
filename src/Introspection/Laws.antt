-- ===== src/Introspection/Laws.antt =====
-- What an introspection answers, and to whom.
use identity_ghost.Prelude.{
  ℕ, ◌≡◌, ◌⊎◌, any, arith, refl, sym, ap, ◌∙◌, true, Text, ◌==◌, eq_of_==, Bool-cases, Option-cases,
  inl, inr,
}
use identity_ghost.Errors.{Result, ok, err, Result-cases, ok-injective}
use identity_ghost.Scope.{format}
use identity_ghost.Client.{Client, find_by_client_id_or_alias}
use identity_ghost.ClientAuth.{matches, validate_client_secret, validate_client_credentials}
use identity_ghost.AccessToken.{Token, validate_access_token}
use identity_ghost.AccessToken.Accepted.{IsAccepted, validate_access_token-IsAccepted}
use identity_ghost.Introspection.{
  Server, Active, Response, active, is_oauth, authenticate_client, for_tenant, introspect,
}

module _ (server : Server) (now : ℕ) where
  -- The second path never lets anyone in: it looks for the same client again.
  authenticate-eq-ok :
      (client_id secret : Text) {tenant : Text}
      → authenticate_client server now client_id secret ≡ ok tenant
      → (c : Client) × (find_by_client_id_or_alias client_id server.clients ≡ ok c)
        × (validate_client_secret server.scrypt server.secrets now c secret ≡ true)
        × (c.tenant_id ≡ tenant)
  unfolding authenticate_client validate_client_credentials
  authenticate-eq-ok client_id secret {tenant} h =
      elim (Result-cases (find_by_client_id_or_alias client_id server.clients)) [
        | inl (c, found) ↦
            let h1 = rw found at h in
            elim (Bool-cases (validate_client_secret server.scrypt server.secrets now c secret)) [
              | inl right ↦ (c, found, right, ok-injective (rw right at h1))
              | inr wrong ↦ let bad = rw wrong at h1 in cc
            ]
        | inr (e, missing) ↦
            let h1 = rw missing at h in
            elim (Bool-cases (is_oauth e)) [
              | inl passed_on ↦ let bad = rw passed_on at h1 in cc
              | inr other ↦ let bad = rw other at h1 in cc
            ]
      ]

  secret_or_public :
      (c : Client) (secret : Text)
      → validate_client_secret server.scrypt server.secrets now c secret ≡ true
      → (c.is_public ≡ true)
        ⊎ (any (matches server.scrypt server.secrets now secret) (server.secrets c) ≡ true)
  unfolding validate_client_secret
  secret_or_public c secret h = elim (Bool-cases c.is_public) [
    | inl open_ ↦ inl open_
    | inr closed ↦ inr (ground arith)
  ]

  pub record IsReported (client_id secret token : Text) (a : Active) : Type 0 where
    pub client : Client
    pub found : find_by_client_id_or_alias client_id server.clients ≡ ok client
    pub authenticated :
        (client.is_public ≡ true)
        ⊎ (any (matches server.scrypt server.secrets now secret) (server.secrets client) ≡ true)
    pub t : Token
    pub accepted :
        IsAccepted server.libraries server.directory server.membership_check_enabled server.keys
          token t
    pub own_tenant : t.tenant ≡ client.tenant_id
    pub sub : a.sub ≡ t.sub
    pub scope : a.scope ≡ format t.scopes
    pub for_client : a.client_id ≡ t.client_id

  reported :
      (token tenant : Text) (r : Result Token) {a : Active}
      → for_tenant server now token tenant r ≡ active a
      → (t : Token) × (r ≡ ok t)
        × (t.tenant ≡ tenant)
        × (a.sub ≡ t.sub)
        × (a.scope ≡ format t.scopes)
        × (a.client_id ≡ t.client_id)
  reported token tenant (err e) h = cc
  reported token tenant (ok t) {a} h = elim (Bool-cases (t.tenant == tenant)) [
    | inr other ↦ let bad = rw other at h in cc
    | inl own ↦ elim (Option-cases (server.libraries.decode token)) [
      | inl none_there ↦ let bad = rw (own, none_there) at h in cc
      | inr (raw, decoded) ↦
          let e = active-injective (rw (own, decoded) at h) in
          (
            t,
            refl,
            eq_of_== t.tenant tenant own,
            sym (ap (λ (x : Active). x.sub) e),
            sym (ap (λ (x : Active). x.scope) e),
            sym (ap (λ (x : Active). x.client_id) e),
          )
    ]
  ]
    where
      active-injective : {x y : Active} → Path Response (active x) (active y) → x ≡ y
      active-injective e = cc

  -- A token is reported active only to a client that was found and that either is public, whatever the
  -- secret, or has a secret that matches and is not past its expiry; only if it passes the validation of access tokens, and only if it was issued by the client's own tenant; the answer is
  -- about that token.
  pub introspect-IsReported :
      (client_id secret token : Text) {a : Active}
      → introspect server now client_id secret token ≡ ok (active a)
      → IsReported client_id secret token a
  unfolding introspect
  introspect-IsReported client_id secret token {a} h =
      elim (Result-cases (authenticate_client server now client_id secret)) [
        | inr (e, refused) ↦
            let h1 = rw refused at h in
            elim (Bool-cases (is_oauth e)) [
              | inl passed_on ↦ let bad = rw passed_on at h1 in cc
              | inr other ↦ let bad = rw other at h1 in cc
            ]
        | inl (tenant, let_in) ↦
            let (c, found, right, own) = authenticate-eq-ok client_id secret let_in in
            let validated =
              validate_access_token server.libraries server.directory
                server.membership_check_enabled server.keys token in
            let (t, valid, same, sub, scope, for_client) =
              reported token tenant validated (ok-injective (rw let_in at h)) in
            record {
              client = c;
              found = found;
              authenticated = secret_or_public c secret right;
              t = t;
              accepted =
                  validate_access_token-IsAccepted server.libraries server.directory
                    server.membership_check_enabled server.keys token valid;
              own_tenant = same ∙ sym own;
              sub = sub;
              scope = scope;
              for_client = for_client;
            }
      ]
