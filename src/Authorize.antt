-- ===== src/Authorize.antt =====
-- srv/src/auth/authorize.service.ts: the checks of an authorization request, and the schema of it in
-- srv/src/validation/validation.schema.ts. The outside is a record of operations, `Platform`.
pub mod Request
pub mod Redirects
pub mod Bindings
pub mod Tests
unfoldable pub use Request.*
use identity_ghost.Prelude.{
  ℕ, Bool, true, false, ◌&&◌, ◌||◌, not, Option, none, some, List, [], ◌∷◌, ltb, length,
  if◌then◌else◌, is_some, or_else, Text, text, ◌==◌, or_null, is_text, includes, join_space,
  split_on,
}
use identity_ghost.Errors.{
  Exception, Result, ok, err, ◌>>=◌, ◌>>◌, throw_if, oauth, redirect, not_found, ambiguous_client,
  invalid_request, unsupported_response_type,
}
use identity_ghost.Scope.{resolve_scopes}
use identity_ghost.Prompt.{prompt_words}
use identity_ghost.Client
use identity_ghost.Client.{Client, find_by_client_id_or_alias}
use identity_ghost.Client.Resource.{validate_resource}
use identity_ghost.IdTokenHint
use identity_ghost.IdTokenHint.{Decoded}

abbrev pub schema_error : Field → Exception
schema_error response_type_field = oauth unsupported_response_type
schema_error _ = oauth invalid_request

unfoldable pub validate_schema : Platform → AuthorizeQueryParams → Result (Unit {0})
validate_schema platform params = elim (platform.broken params) [
  | none ↦ ok tt
  | some field ↦ err (schema_error field)
]

-- The `catch` of `validateClientId`.
abbrev pub client_error : Exception → Exception
client_error ambiguous_client = oauth invalid_request
client_error not_found = oauth invalid_request
client_error e = e

abbrev catch_client : Result Client → Result Client
catch_client (ok c) = ok c
catch_client (err e) = err (client_error e)

unfoldable pub validate_client_id : Option Text → Client.Table → Result Client
unfolding find_by_client_id_or_alias
validate_client_id client_id t = elim (or_null client_id) [
  | none ↦ err (oauth invalid_request)
  | some value ↦ catch_client (find_by_client_id_or_alias value t)
]

-- The only registered URI.
abbrev pub only : List Text → Result Text
only (uri ∷ []) = ok uri
only _ = err (oauth invalid_request)

unfoldable pub validate_redirect_uri : Client → Option Text → Result Text
validate_redirect_uri client redirect_uri = elim (or_null redirect_uri) [
  | none ↦ only client.redirect_uris
  | some uri ↦
      if not (includes client.redirect_uris uri) then err (oauth invalid_request) else ok uri
]

unfoldable pub validate_prompt_none_exclusivity :
    Option Text → Text → Option Text → Result (Unit {0})
unfolding split_on
validate_prompt_none_exclusivity prompt uri state = elim (or_null prompt) [
  | none ↦ ok tt
  | some s ↦
      throw_if (includes (prompt_words s) (text "none") && ltb 1 (length (prompt_words s)))
        (redirect uri invalid_request state)
]

-- The redirect of a missing state carries none.
unfoldable pub validate_state : Option Text → Text → Result (Unit {0})
validate_state state uri = throw_if (not (is_given state)) (redirect uri invalid_request none)

-- The method that is in force: `plain` where it is left out.
abbrev pub effective_method : Option Text → Option Text → Text
effective_method challenge method =
    if is_given challenge && not (is_given method)
    then text "plain"
    else or_else (or_null method) (text "plain")

-- The challenge and the method that the code is bound to.
unfoldable pub validate_pkce :
    Client → Option Text → Option Text → Text → Option Text → Result (Option Text × Text)
validate_pkce client challenge method uri state =
    let error = redirect uri invalid_request state in
    throw_if (client.require_pkce && not (is_given challenge)) error
    >> throw_if (client.require_pkce && effective_method challenge method == text "plain") error
    >> throw_if
        (is_text client.pkce_method_used (text "S256")
          && effective_method challenge method == text "plain")
        error
    >> ok
        (challenge, if is_given challenge then effective_method challenge method else text "plain")

abbrev is_too_long : Option Text → Bool
is_too_long none = false
is_too_long (some nonce) = ltb 512 (length nonce)

unfoldable pub validate_nonce : Option Text → Text → Option Text → Result (Unit {0})
validate_nonce nonce uri state = throw_if (is_too_long nonce) (redirect uri invalid_request state)

-- The `catch` of the last two checks: an `OAuthException` becomes a redirect.
abbrev pub as_redirect {ℓ} : {A : Type ℓ} → Text → Option Text → Result A → Result A
as_redirect uri state (ok a) = ok a
as_redirect uri state (err (oauth e)) = err (redirect uri e state)
as_redirect uri state (err e) = err e

unfoldable pub validate_resource_indicator :
    Platform → Option Text → Client → Text → Option Text → Result (Unit {0})
unfolding validate_resource
validate_resource_indicator platform resource client uri state = elim (or_null resource) [
  | none ↦ ok tt
  | some r ↦ as_redirect uri state (validate_resource platform.protocol r client.allowed_resources)
]

unfoldable pub validate_id_token_hint :
    Platform → Option Text → Client → Text → Option Text → Result (Option Text)
unfolding IdTokenHint.validate
validate_id_token_hint platform hint client uri state = elim (or_null hint) [
  | none ↦ ok none
  | some h ↦
      as_redirect uri state (
        IdTokenHint.validate platform.decode platform.public_key platform.verifies h
          client.client_id)
      >>= λ sub. ok (some sub)
]

-- The checks that follow once the client and the redirect URI are known.
unfoldable pub validate_for :
    Platform → AuthorizeQueryParams → Client → Text → Result ValidatedAuthorizeRequest
unfolding validate_prompt_none_exclusivity validate_state validate_pkce validate_nonce
    validate_resource_indicator resolve_scopes validate_id_token_hint join_space
validate_for platform params client uri = do
  validate_prompt_none_exclusivity params.prompt uri params.state
  validate_state params.state uri
  pkce ← validate_pkce client params.code_challenge params.code_challenge_method uri params.state
  validate_nonce params.nonce uri params.state
  validate_resource_indicator platform params.resource client uri params.state
  scopes ← resolve_scopes (or_null params.scope) client.allowed_scopes
  sub ← validate_id_token_hint platform params.id_token_hint client uri params.state
  ok (record {
    client_id = client.client_id;
    redirect_uri = uri;
    response_type = params.response_type;
    scope = join_space scopes;
    state = params.state;
    code_challenge = pkce.0;
    code_challenge_method = pkce.1;
    nonce = params.nonce;
    prompt = params.prompt;
    max_age = params.max_age;
    resource = params.resource;
    id_token_hint_sub = sub;
    subscriber_tenant_hint = params.subscriber_tenant_hint;
  })

unfoldable pub validate_authorize_request :
    Platform → AuthorizeQueryParams → Client.Table → Result ValidatedAuthorizeRequest
unfolding validate_schema validate_client_id validate_redirect_uri validate_for
validate_authorize_request platform params t = do
  validate_schema platform params
  client ← validate_client_id params.client_id t
  uri ← validate_redirect_uri client params.redirect_uri
  validate_for platform params client uri
