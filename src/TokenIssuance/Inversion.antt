-- ===== src/TokenIssuance/Inversion.antt =====
-- What a chain of steps that returned says of its steps.
use identity_ghost.Prelude.{
  zero, suc, ◌<◌, ◌≡◌, refl, ap, Bool, true, false, Option, List, Text, arith, or_null, Parsed,
  not_a_number, negative, number, subst, if◌then◌else◌, ◌⊎◌, inl, inr,
}
use identity_ghost.Errors.{Result, ok, err, ok-injective}
use identity_ghost.Scope.{format}
use identity_ghost.TokenIssuance.{Stores, TokenResponse, M, after, lift, format_response}

module _ {ℓ κ} {A : Type ℓ} {B : Type κ} where
  pub after-eq-ok :
      (r : Result A × Stores) (next : A → M B) {b : B} {s' : Stores}
      → after r next ≡ (ok b, s')
      → (a : A) × (s : Stores) × (r ≡ (ok a, s)) × (next a s ≡ (ok b, s'))
  after-eq-ok (ok a, s) next h = (a, s, refl, h)
  after-eq-ok (err e, s) next h = cc

  -- A step that only reads leaves the stores as they are.
  pub lift-eq-ok :
      (r : Result A) (next : A → M B) (s : Stores) {b : B} {s' : Stores}
      → after (lift r s) next ≡ (ok b, s')
      → (a : A) × (r ≡ ok a) × (next a s ≡ (ok b, s'))
  lift-eq-ok (ok a) next s h = (a, refl, h)
  lift-eq-ok (err e) next s h = cc

pub record IsResponse (token : Text) (refresh : Option Text) (scopes : List Text) (id : Option Text)
    (r : TokenResponse) : Type 0 where
  pub access_token : r.access_token ≡ token
  pub refresh_token : r.refresh_token ≡ or_null refresh
  pub scope : r.scope ≡ format scopes
  pub id_token : r.id_token ≡ or_null id
  pub lives : 0 < r.expires_in

pub format_response-eq-ok :
    (seconds : Parsed) (token : Text) (refresh : Option Text) (scopes : List Text)
    (id : Option Text) {r : TokenResponse}
    → format_response seconds token refresh scopes id ≡ ok r
    → IsResponse token refresh scopes id r
unfolding format_response
format_response-eq-ok not_a_number token refresh scopes id h = cc
format_response-eq-ok negative token refresh scopes id h = cc
format_response-eq-ok (number zero) token refresh scopes id h = cc
format_response-eq-ok (number (suc n)) token refresh scopes id h =
    subst (IsResponse token refresh scopes id) (ok-injective h) (record {
      access_token = refl;
      refresh_token = refl;
      scope = refl;
      id_token = refl;
      lives = omega arith;
    })

pub lifted-eq-ok {ℓ} :
    {A : Type ℓ} (r : Result A) (s : Stores) {a : A} {s' : Stores}
    → lift r s ≡ (ok a, s')
    → (r ≡ ok a) × (s ≡ s')
lifted-eq-ok r s {a} {s'} h =
    (ap (λ (p : Result _ × Stores). p.0) h, ap (λ (p : Result _ × Stores). p.1) h)

-- The branch that a test has led into.
pub branch-eq {ℓ} :
    {A : Type ℓ} (b : Bool) (m m' : M A) (s : Stores) {z : Result A × Stores}
    → (if b then m else m') s ≡ z
    → ((b ≡ true) × (m s ≡ z)) ⊎ ((b ≡ false) × (m' s ≡ z))
branch-eq true m m' s h = inl (refl, h)
branch-eq false m m' s h = inr (refl, h)
