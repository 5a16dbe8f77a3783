-- ===== src/Authorize/Bindings.antt =====
-- What a validated request is bound to, and PKCE.
use identity_ghost.Prelude.{
  ◌≡◌, refl, subst, Bool, true, false, not, Option, some, List, [], ◌∷◌, arith, Text, text, ◌==◌,
  or_null, is_text, includes, join_space,
}
use identity_ghost.Errors.{
  ok-injective, throw_if-eq-ok, Exception, Result, ok, err, bind-eq-ok, oauth,
}
use identity_ghost.Scope.{resolve_scopes}
use identity_ghost.Client
use identity_ghost.Client.{Client}
use identity_ghost.Client.Resource.{validate_resource}
use identity_ghost.Authorize.{
  AuthorizeQueryParams, ValidatedAuthorizeRequest, Platform, is_given, validate_schema,
  validate_client_id, validate_redirect_uri, validate_prompt_none_exclusivity, validate_state,
  validate_pkce, validate_nonce, as_redirect, validate_resource_indicator, validate_id_token_hint,
  validate_for, validate_authorize_request,
}
use identity_ghost.Authorize.Redirects.{validate_redirect_uri-registered}

-- Where the client requires PKCE, a request passes only with a challenge and another method than
-- `plain`; where it has used S256 before, a challenge passes only with another method than `plain`.
pub pkce_enforced :
    (client : Client) (challenge method : Option Text) (uri : Text) (state : Option Text)
    {r : Option Text × Text}
    → validate_pkce client challenge method uri state ≡ ok r
    → (r.0 ≡ challenge)
      × (client.require_pkce ≡ true → (is_given r.0 ≡ true) × ((r.1 == text "plain") ≡ false))
      × (is_text client.pkce_method_used (text "S256") ≡ true
          → is_given challenge ≡ true
          → (r.1 == text "plain") ≡ false)
unfolding validate_pkce
pkce_enforced client challenge method uri state {r} h =
    (ground arith, (λ required. (ground arith, ground arith)), λ used given. ground arith)

-- A client that does not require PKCE but has used S256 before is not protected against its
-- removal: with a method other than `plain` and no challenge at all, the request passes.
pub pkce_left_out :
    (client : Client) (challenge : Option Text) (method uri : Text) (state : Option Text)
    → client.require_pkce ≡ false
    → is_given challenge ≡ false
    → is_given (some method) ≡ true
    → (method == text "plain") ≡ false
    → validate_pkce client challenge (some method) uri state ≡ ok (challenge, text "plain")
unfolding validate_pkce
pkce_left_out client challenge [] uri state free bare given other = cc
pkce_left_out client challenge (c ∷ cs) uri state free bare given other = ground arith

as_redirect-eq-ok {ℓ} :
    {A : Type ℓ} (uri : Text) (state : Option Text) (m : Result A) {a : A}
    → as_redirect uri state m ≡ ok a
    → m ≡ ok a
as_redirect-eq-ok uri state (ok b) h = h
as_redirect-eq-ok uri state (err (oauth x)) h = cc
as_redirect-eq-ok uri state (err (Exception.redirect v x w)) h = cc
as_redirect-eq-ok uri state (err Exception.bad_request) h = cc
as_redirect-eq-ok uri state (err Exception.unauthorized) h = cc
as_redirect-eq-ok uri state (err Exception.forbidden) h = cc
as_redirect-eq-ok uri state (err Exception.not_found) h = cc
as_redirect-eq-ok uri state (err Exception.ambiguous_client) h = cc
as_redirect-eq-ok uri state (err Exception.internal) h = cc

resource-eq-ok :
    (platform : Platform) (resource : Option Text) (client : Client) (uri : Text)
    (state : Option Text) {u : Unit {0}} {r : Text}
    → validate_resource_indicator platform resource client uri state ≡ ok u
    → or_null resource ≡ some r
    → validate_resource platform.protocol r client.allowed_resources ≡ ok tt
unfolding validate_resource_indicator
resource-eq-ok platform resource client uri state h given =
    as_redirect-eq-ok uri state _ (rw (given, validate_resource_indicator) at h)

-- How a request that passes is bound to its client.
pub record IsBound (platform : Platform) (params : AuthorizeQueryParams) (t : Client.Table)
    (v : ValidatedAuthorizeRequest) : Type 0 where
  pub client : Client
  pub found : validate_client_id params.client_id t ≡ ok client
  pub own : v.client_id ≡ client.client_id
  pub registered : includes client.redirect_uris v.redirect_uri ≡ true
  pub state_given : is_given v.state ≡ true
  pub pkce_required :
      client.require_pkce ≡ true
      → (is_given v.code_challenge ≡ true) × ((v.code_challenge_method == text "plain") ≡ false)
  pub scopes : List Text
  pub resolved : resolve_scopes (or_null params.scope) client.allowed_scopes ≡ ok scopes
  pub scope : v.scope ≡ join_space scopes
  pub resource_allowed :
      (r : Text)
      → or_null v.resource ≡ some r
      → validate_resource platform.protocol r client.allowed_resources ≡ ok tt

eq_of_not : (b : Bool) → not b ≡ false → b ≡ true
eq_of_not b h = ground arith

validate_for-IsBound :
    (platform : Platform) (params : AuthorizeQueryParams) (t : Client.Table) (c : Client)
    (uri : Text) {v : ValidatedAuthorizeRequest}
    → validate_client_id params.client_id t ≡ ok c
    → includes c.redirect_uris uri ≡ true
    → validate_for platform params c uri ≡ ok v
    → IsBound platform params t v
unfolding validate_for validate_state
validate_for-IsBound platform params t c uri {v} found registered h =
    let (_, prompted, h1) =
      bind-eq-ok (validate_prompt_none_exclusivity params.prompt uri params.state) _ h in
    let (_, stated, h2) = bind-eq-ok (validate_state params.state uri) _ h1 in
    let (pkce, bound, h3) =
      bind-eq-ok
        (validate_pkce c params.code_challenge params.code_challenge_method uri params.state) _
        h2 in
    let (_, short, h4) = bind-eq-ok (validate_nonce params.nonce uri params.state) _ h3 in
    let (_, allowed, h5) =
      bind-eq-ok (validate_resource_indicator platform params.resource c uri params.state) _ h4 in
    let (scopes, resolved, h6) =
      bind-eq-ok (resolve_scopes (or_null params.scope) c.allowed_scopes) _ h5 in
    let (sub, hinted, h7) =
      bind-eq-ok (validate_id_token_hint platform params.id_token_hint c uri params.state) _ h6 in
    let (_, required, _) =
      pkce_enforced c params.code_challenge params.code_challenge_method uri params.state bound in
    subst (IsBound platform params t) (ok-injective h7) (record {
      client = c;
      found = found;
      own = refl;
      registered = registered;
      state_given = eq_of_not _ (throw_if-eq-ok (not (is_given params.state)) _ stated);
      pkce_required = required;
      scopes = scopes;
      resolved = resolved;
      scope = refl;
      resource_allowed =
          λ r given. resource-eq-ok platform params.resource c uri params.state allowed given;
    })

-- A request that passes names a client; its redirect URI is registered for that client, it carries a
-- state, PKCE where the client requires it, scopes that the client allows, and no resource but one
-- that the client lists.
pub validate-IsBound :
    (platform : Platform) (params : AuthorizeQueryParams) (t : Client.Table)
    {v : ValidatedAuthorizeRequest}
    → validate_authorize_request platform params t ≡ ok v
    → IsBound platform params t v
unfolding validate_authorize_request
validate-IsBound platform params t h =
    let (_, fine, h1) = bind-eq-ok (validate_schema platform params) _ h in
    let (c, found, h2) = bind-eq-ok (validate_client_id params.client_id t) _ h1 in
    let (uri, accepted, h3) = bind-eq-ok (validate_redirect_uri c params.redirect_uri) _ h2 in
    validate_for-IsBound platform params t c uri found
      (validate_redirect_uri-registered c params.redirect_uri accepted) h3
