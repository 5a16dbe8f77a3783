-- ===== src/Authorize/Request.antt =====
-- The parameters of an authorization request, the schema of srv/src/validation/validation.schema.ts for
-- them, and the outside that the checks of srv/src/auth/authorize.service.ts use.
use identity_ghost.Prelude.{
  ℕ, Bool, true, false, Option, none, some, [], ◌∷◌, is_some, Text, text, or_null, is_text,
  includes,
}
use identity_ghost.IdTokenHint.{Decoded}

-- `max_age`, as the schema's cast to a number reads it.
pub data MaxAge : Type 0 where
  not_an_integer negative : MaxAge
  seconds : ℕ → MaxAge

pub record AuthorizeQueryParams : Type 0 where
  pub response_type : Option Text
  pub client_id : Option Text
  pub redirect_uri : Option Text
  pub scope : Option Text
  pub state : Option Text
  pub code_challenge : Option Text
  pub code_challenge_method : Option Text
  pub nonce : Option Text
  pub prompt : Option Text
  pub max_age : Option MaxAge
  pub resource : Option Text
  pub id_token_hint : Option Text
  pub from_logout : Option Text
  pub session_confirmed : Option Text
  pub consent_denied : Option Text
  pub subscriber_tenant_hint : Option Text

pub record ValidatedAuthorizeRequest : Type 0 where
  pub client_id : Text
  pub redirect_uri : Text
  pub response_type : Option Text
  pub scope : Text
  pub state : Option Text
  pub code_challenge : Option Text
  pub code_challenge_method : Text
  pub nonce : Option Text
  pub prompt : Option Text
  pub max_age : Option MaxAge
  pub resource : Option Text
  pub id_token_hint_sub : Option Text
  pub subscriber_tenant_hint : Option Text

-- The fields of `AuthorizeSchema` that have a rule which a string can break.
pub data Field : Type 0 where
  response_type_field client_id_field code_challenge_method_field max_age_field : Field

-- `!!s`
abbrev pub is_given : Option Text → Bool
is_given s = is_some (or_null s)

abbrev is_method : Option Text → Bool
is_method none = true
is_method (some m) = includes (text "plain" ∷ text "S256" ∷ text "OWH32" ∷ []) m

abbrev is_natural : Option MaxAge → Bool
is_natural none = true
is_natural (some (seconds n)) = true
is_natural (some _) = false

-- The rules of `AuthorizeSchema`.
unfoldable pub obeys : Field → AuthorizeQueryParams → Bool
obeys response_type_field params = is_text params.response_type (text "code")
obeys client_id_field params = is_given params.client_id
obeys code_challenge_method_field params = is_method params.code_challenge_method
obeys max_age_field params = is_natural params.max_age

-- `broken` is the schema library, which stops at the first rule that it finds broken; `protocol` is
-- that of the platform's `URL`; the others are the JWT library and the signing keys.
pub record Platform : Type 0 where
  pub broken : AuthorizeQueryParams → Option Field
  pub protocol : Text → Option Text
  pub decode : Text → Option Decoded
  pub public_key : Text → Option Text → Option Text
  pub verifies : Text → Text → Bool
