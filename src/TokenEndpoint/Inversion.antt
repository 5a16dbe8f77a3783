-- ===== src/TokenEndpoint/Inversion.antt =====
-- What the steps of the token endpoint say when they return.
use identity_ghost.Prelude.{
  ◌≡◌, ◌⊎◌, refl, ap, subst, Bool, true, false, not, Option, none, some, arith, if◌then◌else◌, Text,
  ◌==◌, find, Bool-cases, Option-cases, inl, inr, find-test, eq_of_==,
}
use identity_ghost.Errors.{Result, ok, err, ok-injective, oauth, invalid_grant}
use identity_ghost.AuthCode
use identity_ghost.Client.{Client}
use identity_ghost.ClientAuth.{validate_client_secret}
use identity_ghost.Directory.{User}
use identity_ghost.TokenIssuance.{Draws, Stores, TokenResponse}
use identity_ghost.TokenEndpoint.{
  Server, State, validate, shaped, or_unauthorized, permits_password, authenticates, with_codes,
}

module _ (server : Server) (draws : Draws) where
  pub shaped-eq-ok : (v : Bool) (s s' : Stores) {u : Unit {0}} → shaped v s ≡ (ok u, s') → s ≡ s'
  shaped-eq-ok true s s' h = ap (λ (p : Result (Unit {0}) × Stores). p.1) h
  shaped-eq-ok false s s' h = cc

  pub unauthorized-eq-ok : (f : Result Client) {c : Client} → or_unauthorized f ≡ ok c → f ≡ ok c
  unauthorized-eq-ok (ok c) h = h
  unauthorized-eq-ok (err e) h = cc

  pub permits-eq-ok :
      (c : Client) {d : Client}
      → permits_password c ≡ ok d
      → (c ≡ d) × (c.allow_password_grant ≡ true)
  permits-eq-ok c h = elim (Bool-cases c.allow_password_grant) [
    | inl on ↦ (ok-injective (ground (arith, h)), on)
    | inr off ↦ absurd (ground (arith, h))
  ]

  pub validate_user :
      (email secret : Text) {u : User}
      → validate server email secret ≡ ok u
      → (u.email ≡ email) × (server.argon2 u.password secret ≡ true) × (u.locked ≡ false)
  unfolding validate
  validate_user email secret {u} h =
      elim (Option-cases (find (λ (v : User). v.email == email) server.issuance.directory.users)) [
        | inl missing ↦ let bad = rw (missing, validate) at h in cc
        | inr (v, found) ↦
            accepted v
              (eq_of_== v.email email
                (find-test (λ (w : User). w.email == email) server.issuance.directory.users found))
              (rw (found, validate) at h)
      ]
    where
      accepted :
          (v : User)
          → v.email ≡ email
          → (if not (server.argon2 v.password secret)
              then err (oauth invalid_grant)
              else if v.locked
              then err (oauth invalid_grant)
              else ok v)
            ≡ ok u
          → (u.email ≡ email) × (server.argon2 u.password secret ≡ true) × (u.locked ≡ false)
      accepted v e k = elim (Bool-cases (server.argon2 v.password secret)) [
        | inr wrong ↦ absurd (ground (arith, k))
        | inl right ↦ elim (Bool-cases v.locked) [
          | inl shut ↦ absurd (ground (arith, k))
          | inr free ↦
              let same : v ≡ u = ok-injective (ground (arith, k)) in
              subst
                (λ (w : User).
                  (w.email ≡ email) × (server.argon2 w.password secret ≡ true) × (w.locked ≡ false))
                same (e, right, free)
        ]
      ]

  pub authenticates-eq-ok :
      (c : Client) (secret : Option Text) {d : Client}
      → authenticates server draws c secret ≡ ok d
      → (c ≡ d)
        × ((c.is_public ≡ true)
            ⊎ ((t : Text) × (secret ≡ some t)
                × (validate_client_secret server.scrypt server.secrets draws.now c t ≡ true)))
  authenticates-eq-ok c none h = elim (Bool-cases c.is_public) [
    | inl open_ ↦ (ok-injective (ground (arith, h)), inl open_)
    | inr shut ↦ absurd (ground (arith, h))
  ]
  authenticates-eq-ok c (some t) h = elim (Bool-cases c.is_public) [
    | inl open_ ↦ (ok-injective (ground (arith, h)), inl open_)
    | inr shut ↦
        elim (Bool-cases (validate_client_secret server.scrypt server.secrets draws.now c t)) [
          | inl right ↦ (ok-injective (ground (arith, h)), inr (t, refl, right))
          | inr wrong ↦ absurd (ground (arith, h))
        ]
  ]

  pub with_codes-eq-ok :
      (codes : AuthCode.Table) (m : Result TokenResponse × Stores) {r : TokenResponse} {s' : State}
      → with_codes server draws codes m ≡ (ok r, s')
      → m ≡ (ok r, s'.stores)
  with_codes-eq-ok codes (ok x, t) h =
      ap (λ (p : Result TokenResponse × State). (p.0, p.1.stores)) h
  with_codes-eq-ok codes (err e, t) h = cc
