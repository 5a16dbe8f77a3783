-- ===== src/Errors.antt =====
-- srv/src/exceptions/oauth-exception.ts and authorize-redirect.exception.ts, and the result of a
-- method that may throw. The human-readable descriptions are left out: no code reads them.
use identity_ghost.Prelude.{ℕ, ◌≡◌, refl, ◌⊎◌, inl, inr, Bool, Text, Option}

-- The `errorCode` strings.
pub data ErrorCode : Type 0 where
  invalid_request invalid_client invalid_grant unauthorized_client unsupported_grant_type :
      ErrorCode
  invalid_scope invalid_token unsupported_response_type server_error login_required : ErrorCode
  consent_required interaction_required invalid_target access_denied : ErrorCode

-- `oauth` is an `OAuthException`, `redirect` an `AuthorizeRedirectException` with its target and
-- state; the others are the framework's HTTP exceptions and any error that is none of these.
pub data Exception : Type 0 where
  oauth : ErrorCode → Exception
  redirect : Text → ErrorCode → Option Text → Exception
  bad_request unauthorized forbidden not_found ambiguous_client internal : Exception

-- The status code of an `OAuthException`, by its factory method.
abbrev pub status : ErrorCode → ℕ
status invalid_client = 401
status invalid_token = 401
status _ = 400

pub data Result {ℓ} (A : Type ℓ) : Type ℓ where
  ok : A → Result A
  err : Exception → Result A

-- `await`: an exception skips what follows.
infixl 5 ◌>>=◌
abbrev pub ◌>>=◌ {ℓ κ} : {A : Type ℓ} {B : Type κ} → Result A → (A → Result B) → Result B
err thrown >>= next = err thrown
ok value >>= next = next value

-- `if (c) throw e`
abbrev pub throw_if : Bool → Exception → Result (Unit {0})
throw_if Bool.true e = err e
throw_if Bool.false e = ok tt

infixl 5 ◌>>◌
abbrev pub ◌>>◌ {κ} : {B : Type κ} → Result (Unit {0}) → Result B → Result B
check >> rest = check >>= λ _. rest

abbrev pub or_throw {ℓ} : {A : Type ℓ} → Option A → Exception → Result A
or_throw Option.none e = err e
or_throw (Option.some a) e = ok a

abbrev pub is_ok {ℓ} : {A : Type ℓ} → Result A → Bool
is_ok (ok _) = Bool.true
is_ok (err _) = Bool.false

pub Result-cases {ℓ} :
    {A : Type ℓ} (r : Result A) → ((a : A) × (r ≡ ok a)) ⊎ ((e : Exception) × (r ≡ err e))
Result-cases (ok a) = inl (a, refl)
Result-cases (err e) = inr (e, refl)

-- What a chain that returned, or one that failed, says of its first step.
module _ {ℓ κ} {A : Type ℓ} {B : Type κ} (step : Result A) (next : A → Result B) where
  pub bind-eq-ok : {y : B} → (step >>= next) ≡ ok y → (x : A) × (step ≡ ok x) × (next x ≡ ok y)
  bind-eq-ok returned = elim (Result-cases step) [
    | inl (x, e) ↦ (x, e, rw e at returned)
    | inr (problem, e) ↦ let bad = rw e at returned in cc
  ]

  pub bind-eq-err :
      {problem : Exception}
      → (step >>= next) ≡ err problem
      → (step ≡ err problem) ⊎ ((x : A) × (step ≡ ok x) × (next x ≡ err problem))
  bind-eq-err failed = elim (Result-cases step) [
    | inl (x, e) ↦ inr (x, e, rw e at failed)
    | inr (problem, e) ↦ let early = rw e at failed in inl cc
  ]

pub ok-injective {ℓ} : {A : Type ℓ} {x y : A} → Path (Result A) (ok x) (ok y) → x ≡ y
ok-injective h = cc

-- A check that lets the caller go on has not found its condition.
pub throw_if-eq-ok :
    (b : Bool) (e : Exception) {u : Unit {0}} → throw_if b e ≡ ok u → b ≡ Bool.false
throw_if-eq-ok Bool.true e h = cc
throw_if-eq-ok Bool.false e h = refl
