-- ===== src/Client/Resource.antt =====
-- srv/src/auth/resource-indicator.validator.ts. `protocol` is the `protocol` of the platform's `URL`,
-- or none where the constructor throws.
use identity_ghost.Prelude.{
  ◌≡◌, ◌↔◌, Bool, true, false, ◌||◌, not, Option, none, some, List, [], ◌∷◌, arith, eqb, any,
  if◌then◌else◌, Text, text, ◌==◌, is_blank, includes,
}
use identity_ghost.Errors.{Result, ok, err, oauth, invalid_target}

abbrev has_scheme : Option Text → Bool
has_scheme none = false
has_scheme (some p) = not (is_blank p || p == text ":")

module _ (protocol : Text → Option Text) where
  unfoldable pub is_valid_resource_uri : Text → Bool
  is_valid_resource_uri resource =
      if is_blank resource
      then false
      else if any (λ c. eqb c b'#') resource
      then false
      else has_scheme (protocol resource)

  -- The checks of the client's list: there is one, it is not empty, and the resource is on it.
  abbrev check_listed : Text → Option (List Text) → Result (Unit {0})
  check_listed resource none = err (oauth invalid_target)
  check_listed resource (some []) = err (oauth invalid_target)
  check_listed resource (some (a ∷ as_)) =
      if not (includes (a ∷ as_) resource) then err (oauth invalid_target) else ok tt

  unfoldable pub validate_resource : Text → Option (List Text) → Result (Unit {0})
  unfolding is_valid_resource_uri
  validate_resource resource allowed =
      if not (is_valid_resource_uri resource)
      then err (oauth invalid_target)
      else check_listed resource allowed

  -- A resource passes exactly when it is an absolute URI with no fragment that the client lists.
  pub validate_resource-eq-ok_iff :
      (resource : Text) (allowed : List Text)
      → (validate_resource resource (some allowed) ≡ ok tt)
        ↔ ((is_valid_resource_uri resource ≡ true) × (includes allowed resource ≡ true))
  unfolding validate_resource
  validate_resource-eq-ok_iff resource [] = ground arith
  validate_resource-eq-ok_iff resource (a ∷ as_) = ground arith
