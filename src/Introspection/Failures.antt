-- ===== src/Introspection/Failures.antt =====
-- How an introspection fails, and what a public client has to show.
use identity_ghost.Prelude.{
  ℕ, ◌≡◌, refl, sym, ap, false, Option, none, some, Text, ◌==◌, Bool-cases, inl, inr, find, is_text,
  List,
}
use identity_ghost.Errors.{Exception, Result, err, Result-cases, oauth, invalid_client}
use identity_ghost.Client.{Client, pick, find_by_client_id_or_alias}
use identity_ghost.ClientAuth.{validate_client_secret, validate_client_credentials}
use identity_ghost.Introspection.{Server, is_oauth, authenticate_client, introspect}

err-injective {ℓ} : {A : Type ℓ} {e e' : Exception} → Path (Result A) (err e) (err e') → e ≡ e'
err-injective h = cc

pick-not_oauth : (a b : Option Client) {e : Exception} → pick a b ≡ err e → is_oauth e ≡ false
pick-not_oauth none none h = ap is_oauth (sym (err-injective h))
pick-not_oauth none (some b) h = cc
pick-not_oauth (some a) none h = cc
pick-not_oauth (some a) (some b) h = elim (Bool-cases (a.id == b.id)) [
  | inl same ↦ let bad = rw same at h in cc
  | inr other ↦ ap is_oauth (sym (err-injective (rw other at h)))
]

find-not_oauth :
    (value : Text) (t : List Client) {e : Exception}
    → find_by_client_id_or_alias value t ≡ err e
    → is_oauth e ≡ false
unfolding find_by_client_id_or_alias
find-not_oauth value t h =
    pick-not_oauth (find (λ (c : Client). c.client_id == value) t)
      (find (λ (c : Client). is_text c.alias value) t) h

module _ (server : Server) (now : ℕ) where
  refused_again :
      (client_id secret : Text) {e : Exception}
      → find_by_client_id_or_alias client_id server.clients ≡ err e
      → validate_client_credentials server.scrypt server.secrets server.clients now client_id secret
        ≡ err (oauth invalid_client)
  unfolding validate_client_credentials
  refused_again client_id secret missing = rw (missing, validate_client_credentials) refl

  authenticate-eq-err :
      (client_id secret : Text) {e : Exception}
      → authenticate_client server now client_id secret ≡ err e
      → e ≡ oauth invalid_client
  unfolding authenticate_client
  authenticate-eq-err client_id secret h =
      elim (Result-cases (find_by_client_id_or_alias client_id server.clients)) [
        | inl (c, found) ↦
            let h1 = rw found at h in
            elim (Bool-cases (validate_client_secret server.scrypt server.secrets now c secret)) [
              | inl right ↦ let bad = rw right at h1 in cc
              | inr wrong ↦ sym (err-injective (rw wrong at h1))
            ]
        | inr (e, missing) ↦
            let plain = find-not_oauth client_id server.clients missing in
            sym (err-injective (rw (missing, plain, refused_again client_id secret missing) at h))
      ]

  -- An introspection never fails but with `invalid_client`: whatever is wrong with the token, the answer
  -- is that it is not active.
  pub introspect-eq-err :
      (client_id secret token : Text) {e : Exception}
      → introspect server now client_id secret token ≡ err e
      → e ≡ oauth invalid_client
  unfolding introspect
  introspect-eq-err client_id secret token {e} h =
      elim (Result-cases (authenticate_client server now client_id secret)) [
        | inl (tenant, let_in) ↦ let bad = rw let_in at h in cc
        | inr (x, refused) ↦
            let same = authenticate-eq-err client_id secret refused in
            sym (err-injective (rw (refused, same) at h))
      ]
