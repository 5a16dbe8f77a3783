-- ===== src/ClientAuth/Accepted.antt =====
-- Which secrets a client is let in with.
use identity_ghost.Prelude.{
  ℕ, ◌≤◌, ◌≡◌, ◌⊎◌, refl, ap, subst, Bool, true, false, Option, none, some, List, [], ◌∷◌, ◌++◌,
  arith, any, Text, eq_of_==, Bool-cases, inl, inr,
}
use identity_ghost.Errors.{Result, ok, err, bind-eq-ok, ok-injective}
use identity_ghost.Client.{Client, Table, find_by_client_id_or_alias}
use identity_ghost.ClientAuth.{
  ClientSecret, is_past, matches, validate_client_secret, found_or_refused,
  validate_client_credentials,
}

any-witness {ℓ} :
    {A : Type ℓ} (p : A → Bool) (xs : List A)
    → any p xs ≡ true
    → (x : A) × (before later : List A) × (xs ≡ before ++ x ∷ later) × (p x ≡ true)
any-witness p [] h = cc
any-witness p (x ∷ xs) h = elim (Bool-cases (p x)) [
  | inl here ↦ (x, [], xs, refl, here)
  | inr there ↦
      let (y, before, later, e, holds) = any-witness p xs (ground arith) in
      (y, x ∷ before, later, ap (λ ys. x ∷ ys) e, holds)
]

not_past :
    (now : ℕ) (o : Option ℕ)
    → is_past now o ≡ false
    → (o ≡ none) ⊎ ((t : ℕ) × (o ≡ some t) × (now ≤ t))
not_past now none h = inl refl
not_past now (some t) h = inr (t, refl, ground arith)

module _ (scrypt : Text → Text → Text) (secrets : Client → List ClientSecret) where
  -- One of the secrets of the client, not run out, whose stored hash is that of the given secret.
  pub record IsSecret (now : ℕ) (secret : Text) (c : Client) : Type 0 where
    pub entry : ClientSecret
    pub before : List ClientSecret
    pub later : List ClientSecret
    pub listed : secrets c ≡ before ++ entry ∷ later
    pub live : (entry.expires_at ≡ none) ⊎ ((t : ℕ) × (entry.expires_at ≡ some t) × (now ≤ t))
    pub hashed : entry.secret ≡ scrypt secret entry.salt

  IsSecret-found :
      (now : ℕ) (secret : Text) (c : Client)
      → any (matches scrypt secrets now secret) (secrets c) ≡ true
      → IsSecret now secret c
  IsSecret-found now secret c h =
      let (entry, before, later, listed, m) =
        any-witness (matches scrypt secrets now secret) (secrets c) h in
      record {
        entry = entry;
        before = before;
        later = later;
        listed = listed;
        live = not_past now entry.expires_at (ground arith);
        hashed = eq_of_== entry.secret (scrypt secret entry.salt) (ground arith);
      }

  pub found-eq-ok :
      (r : Result Client) {c : Client} → found_or_refused scrypt secrets r ≡ ok c → r ≡ ok c
  found-eq-ok (ok d) h = h
  found-eq-ok (err e) h = cc

  -- A client is let in by its credentials only if it is found by its id or alias, is confidential, and
  -- the secret matches one of its entries that has not run out.
  pub validate_client_credentials-eq-ok :
      (clients : Table) (now : ℕ) (client_id secret : Text) {c : Client}
      → validate_client_credentials scrypt secrets clients now client_id secret ≡ ok c
      → (find_by_client_id_or_alias client_id clients ≡ ok c)
        × (c.is_public ≡ false)
        × IsSecret now secret c
  unfolding validate_client_credentials validate_client_secret
  validate_client_credentials-eq-ok clients now client_id secret {c} h =
      let (d, found, h1) =
        bind-eq-ok (found_or_refused scrypt secrets (find_by_client_id_or_alias client_id clients))
          _ h in
      elim (Bool-cases d.is_public) [
        | inl open_ ↦ let bad = rw open_ at h1 in cc
        | inr confidential ↦
            let h2 = rw confidential at h1 in
            elim (Bool-cases (any (matches scrypt secrets now secret) (secrets d))) [
              | inr wrong ↦ let bad = rw wrong at h2 in cc
              | inl right ↦
                  let same : d ≡ c = ok-injective (rw right at h2) in
                  subst
                    (λ (x : Client).
                      (find_by_client_id_or_alias client_id clients ≡ ok x)
                      × (x.is_public ≡ false)
                      × IsSecret now secret x)
                    same
                    (
                      found-eq-ok (find_by_client_id_or_alias client_id clients) found,
                      confidential,
                      IsSecret-found now secret d right,
                    )
            ]
      ]
