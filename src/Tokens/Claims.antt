-- ===== src/Tokens/Claims.antt =====
-- What the tokens say.
use identity_ghost.Prelude.{
  ℕ, ◌≡◌, refl, ap, ◌∙◌, sym, true, false, ◌&&◌, not, Option, none, some, List, [], ◌∷◌, arith,
  if◌then◌else◌, Text, text, ◌==◌, is_blank, includes, includes-distinct, eq_of_==, Bool-cases, inl,
  inr,
}
use identity_ghost.Errors.{ok, bind-eq-ok, ok-injective, throw_if, throw_if-eq-ok, unauthorized}
use identity_ghost.Client.{Tenant}
use identity_ghost.Directory.{User}
use identity_ghost.KeyManagement.{get_current_signing_key}
use identity_ghost.KeyManagement
use identity_ghost.Scope.Sorting.{includes-sort}
use identity_ghost.Tokens.{
  GrantType, Signer, access, access_claims, resolve_claims, unique_sorted, jwt_scopes, sign_with,
  create_access_token,
}

-- An id token names the user exactly if `profile` is granted, and gives the address with its state
-- exactly if `email` is; what the user has left empty is left out.
pub resolve_claims_lem :
    (scopes : List Text) (u : User)
    → ((resolve_claims scopes u).name
        ≡ (if includes scopes (text "profile") && not (is_blank u.name) then some u.name else none))
      × ((resolve_claims scopes u).email ≡ (
          if includes scopes (text "email") && not (is_blank u.email) then some u.email else none))
      × ((resolve_claims scopes u).email_verified ≡ (
          if includes scopes (text "email") && not (is_blank u.email)
          then some u.verified
          else none))
unfolding resolve_claims
resolve_claims_lem [] u = ground arith
resolve_claims_lem (s ∷ scopes) u =
    let (name, email, checked) = resolve_claims_lem scopes u in
    elim (Bool-cases (s == text "profile")) [
      | inl profile ↦
          let e = eq_of_== s (text "profile") profile in
          ground (arith, name, email, checked, not_email s e)
      | inr other ↦ ground (arith, name, email, checked)
    ]
  where
    not_email : (s : Text) → s ≡ text "profile" → (s == text "email") ≡ false
    not_email s e = rw e (ground arith)

includes-jwt_scopes :
    (scopes : List Text) → includes (jwt_scopes scopes) (text "offline_access") ≡ false
includes-jwt_scopes [] = refl
includes-jwt_scopes (s ∷ scopes) = ground (arith, includes-jwt_scopes scopes)

pub includes-unique_sorted :
    (scopes : List Text) (a : Text) → includes (unique_sorted scopes) a ≡ includes scopes a
includes-unique_sorted scopes a = includes-sort _ a ∙ includes-distinct scopes a

module _ (signer : Signer) (keys : KeyManagement.Table) where
  -- A token that is returned to a user was asked for by one whose address is verified, and is signed
  -- with the current key of the issuing tenant; all scopes go back to the caller.
  pub create_access_token-eq-ok :
      (user : User) (tenant : Tenant) (user_tenant : Option Tenant) (scopes roles : List Text)
      (grant : GrantType) (aud : List Text) (client_id jti : Text) (now : ℕ) {r : Text × List Text}
      → create_access_token signer keys user tenant user_tenant scopes roles grant aud client_id jti
          now
        ≡ ok r
      → (user.verified ≡ true)
        × (r.1 ≡ unique_sorted scopes)
        × ((private_key kid : Text) × (get_current_signing_key tenant.id keys
              ≡ ok (private_key, kid))
            × (r.0
                ≡ signer.sign
                    (access (
                      access_claims signer keys user tenant user_tenant scopes roles grant aud
                        client_id jti now))
                    private_key
                    kid))
  unfolding create_access_token
  create_access_token-eq-ok user tenant user_tenant scopes roles grant aud client_id jti now {r} h =
      let (u, checked, h1) = bind-eq-ok (throw_if (not user.verified) unauthorized) _ h in
      let (token, signed, h2) =
        bind-eq-ok
          (sign_with signer keys tenant.id (
            access (
              access_claims signer keys user tenant user_tenant scopes roles grant aud client_id jti
                now)))
          _ h1 in
      let (k, found, h3) = bind-eq-ok (get_current_signing_key tenant.id keys) _ signed in
      let same = ok-injective h2 in
      let e : token
          ≡ signer.sign
              (access (
                access_claims signer keys user tenant user_tenant scopes roles grant aud client_id
                  jti now))
              k.0 k.1 =
        sym (ok-injective h3) in
      (
        ground (arith, throw_if-eq-ok (not user.verified) unauthorized checked),
        sym (ap (λ (p : Text × List Text). p.1) same),
        (k.0, k.1, found, sym (ap (λ (p : Text × List Text). p.0) same) ∙ e),
      )
