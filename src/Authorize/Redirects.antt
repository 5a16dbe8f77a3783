-- ===== src/Authorize/Redirects.antt =====
-- Where the errors of an authorization request are sent.
use identity_ghost.Prelude.{
  ◌≡◌, ◌≢◌, refl, sym, Bool, true, false, Option, none, some, List, [], ◌∷◌, arith, Text, ==_of_eq,
  or_null, includes, Option-cases, inl, inr, subst,
}
use identity_ghost.Errors.{
  ErrorCode, Exception, Result, ok, err, ◌>>=◌, throw_if, oauth, redirect, invalid_request,
  bind-eq-err,
}
use identity_ghost.Scope.{granted, resolve_scopes}
use identity_ghost.Client
use identity_ghost.Client.{Client, find_by_client_id_or_alias}
use identity_ghost.Client.Resource.{validate_resource}
use identity_ghost.IdTokenHint
use identity_ghost.IdTokenHint.{Decoded}
use identity_ghost.Authorize.{
  AuthorizeQueryParams, only, Platform, validate_schema, validate_client_id, validate_redirect_uri,
  validate_prompt_none_exclusivity, validate_state, validate_pkce, validate_nonce, as_redirect,
  validate_resource_indicator, validate_id_token_hint, validate_for, validate_authorize_request,
}

-- If the result is a redirect, its target is this URI.
abbrev pub Stays {ℓ} : {A : Type ℓ} → Text → Result A → Type ℓ
Stays uri r =
    (u : Text) (e : ErrorCode) (state : Option Text) → r ≡ err (redirect u e state) → u ≡ uri

Stays-bind {ℓ κ} :
    {A : Type ℓ} {B : Type κ} (uri : Text) (m : Result A) (f : A → Result B)
    → Stays uri m
    → ((a : A) → Stays uri (f a))
    → Stays uri (m >>= f)
Stays-bind uri (ok a) f h k u e state same = k a u e state same
Stays-bind uri (err x) f h k u e state same = h u e state (cc)

Stays-throw_if :
    (uri : Text) (b : Bool) (e : ErrorCode) (state : Option Text)
    → Stays uri (throw_if b (redirect uri e state))
Stays-throw_if uri true e state u e' state' h = cc
Stays-throw_if uri false e state u e' state' h = cc

Stays-ok {ℓ} : {A : Type ℓ} (uri : Text) (a : A) → Stays uri (ok a)
Stays-ok uri a u e state h = cc

-- The checks that are left to other parts never redirect on their own.
validate_resource-inside :
    (protocol : Text → Option Text) (resource : Text) (allowed : Option (List Text)) (u : Text)
    (e : ErrorCode) (s : Option Text)
    → validate_resource protocol resource allowed ≢ err (redirect u e s)
unfolding validate_resource
validate_resource-inside protocol resource none u e s h = ground arith
validate_resource-inside protocol resource (some []) u e s h = ground arith
validate_resource-inside protocol resource (some (a ∷ as_)) u e s h = ground arith

granted-inside :
    (scopes : List Text) (u : Text) (e : ErrorCode) (s : Option Text)
    → granted scopes ≢ err (redirect u e s)
granted-inside [] u e s h = cc
granted-inside (x ∷ xs) u e s h = cc

only_registered : (uris : List Text) {uri : Text} → only uris ≡ ok uri → includes uris uri ≡ true
only_registered [] h = cc
only_registered (u ∷ []) {uri} h =
    let same : u ≡ uri = ground arith in ground (arith, ==_of_eq u uri same)
only_registered (u ∷ v ∷ us) h = cc

module _ (decode : Text → Option Decoded) (public_key : Text → Option Text → Option Text)
    (verifies : Text → Text → Bool) where
  validate-inside :
      (hint client u : Text) (e : ErrorCode) (s : Option Text)
      → IdTokenHint.validate decode public_key verifies hint client ≢ err (redirect u e s)
  unfolding IdTokenHint.validate
  validate-inside hint client u e s h = ground arith

Stays-as_redirect {ℓ} :
    {A : Type ℓ} (uri : Text) (state : Option Text) (m : Result A)
    → ((u : Text) (e : ErrorCode) (s : Option Text) → m ≢ err (redirect u e s))
    → Stays uri (as_redirect uri state m)
Stays-as_redirect uri state (ok a) h u e s same = cc
Stays-as_redirect uri state (err (oauth x)) h u e s same = cc
Stays-as_redirect uri state (err (redirect v x w)) h u e s same = absurd (h v x w refl)
Stays-as_redirect uri state (err Exception.bad_request) h u e s same = cc
Stays-as_redirect uri state (err Exception.unauthorized) h u e s same = cc
Stays-as_redirect uri state (err Exception.forbidden) h u e s same = cc
Stays-as_redirect uri state (err Exception.not_found) h u e s same = cc
Stays-as_redirect uri state (err Exception.ambiguous_client) h u e s same = cc
Stays-as_redirect uri state (err Exception.internal) h u e s same = cc

prompt-Stays :
    (prompt : Option Text) (uri : Text) (state : Option Text)
    → Stays uri (validate_prompt_none_exclusivity prompt uri state)
unfolding validate_prompt_none_exclusivity
prompt-Stays prompt uri state = elim (Option-cases (or_null prompt)) [
  | inl free ↦ rw (free, validate_prompt_none_exclusivity) (Stays-ok uri tt)
  | inr (s, given) ↦
      rw (given, validate_prompt_none_exclusivity) (Stays-throw_if uri _ invalid_request state)
]

pkce-Stays :
    (client : Client) (challenge method : Option Text) (uri : Text) (state : Option Text)
    → Stays uri (validate_pkce client challenge method uri state)
unfolding validate_pkce
pkce-Stays client challenge method uri state u e s h = ground arith

resource-Stays :
    (platform : Platform) (resource : Option Text) (client : Client) (uri : Text)
    (state : Option Text)
    → Stays uri (validate_resource_indicator platform resource client uri state)
unfolding validate_resource_indicator
resource-Stays platform resource client uri state = elim (Option-cases (or_null resource)) [
  | inl free ↦ rw (free, validate_resource_indicator) (Stays-ok uri tt)
  | inr (r, given) ↦
      rw (given, validate_resource_indicator)
        (Stays-as_redirect uri state _
          (validate_resource-inside platform.protocol r client.allowed_resources))
]

pub scopes-inside :
    (requested allowed : Option Text) (u : Text) (e : ErrorCode) (s : Option Text)
    → resolve_scopes requested allowed ≢ err (redirect u e s)
unfolding resolve_scopes
scopes-inside requested allowed u e s h = granted-inside _ u e s h

scopes-Stays :
    (requested allowed : Option Text) (uri : Text) → Stays uri (resolve_scopes requested allowed)
unfolding resolve_scopes
scopes-Stays requested allowed uri u e s h = absurd (scopes-inside requested allowed u e s h)

hint-Stays :
    (platform : Platform) (hint : Option Text) (client : Client) (uri : Text) (state : Option Text)
    → Stays uri (validate_id_token_hint platform hint client uri state)
unfolding validate_id_token_hint
hint-Stays platform hint client uri state = elim (Option-cases (or_null hint)) [
  | inl free ↦ rw (free, validate_id_token_hint) (Stays-ok uri none)
  | inr (h, given) ↦
      rw (given, validate_id_token_hint)
        (Stays-bind uri _ _
          (Stays-as_redirect uri state _ (
            validate-inside platform.decode platform.public_key platform.verifies h
              client.client_id))
          (λ sub. Stays-ok uri (some sub)))
]

validate_for-Stays :
    (platform : Platform) (params : AuthorizeQueryParams) (client : Client) (uri : Text)
    → Stays uri (validate_for platform params client uri)
unfolding validate_for validate_state validate_nonce
validate_for-Stays platform params client uri =
    Stays-bind uri _ _ (prompt-Stays params.prompt uri params.state) (λ _.
      Stays-bind uri _ _ (Stays-throw_if uri _ invalid_request none) (λ _.
        Stays-bind uri _ _
          (pkce-Stays client params.code_challenge params.code_challenge_method uri params.state)
          (λ pkce. Stays-bind uri _ _ (Stays-throw_if uri _ invalid_request params.state) (λ _.
            Stays-bind uri _ _ (resource-Stays platform params.resource client uri params.state)
              (λ _.
                Stays-bind uri _ _ (scopes-Stays (or_null params.scope) client.allowed_scopes uri)
                  (λ scopes.
                    Stays-bind uri _ _
                      (hint-Stays platform params.id_token_hint client uri params.state)
                      (λ sub. Stays-ok uri _)))))))

-- A redirect URI that is accepted is one that the client has registered.
pub validate_redirect_uri-registered :
    (client : Client) (given : Option Text) {uri : Text}
    → validate_redirect_uri client given ≡ ok uri
    → includes client.redirect_uris uri ≡ true
unfolding validate_redirect_uri
validate_redirect_uri-registered client given {uri} h = elim (Option-cases (or_null given)) [
  | inl left_out ↦ only_registered client.redirect_uris (rw (left_out, validate_redirect_uri) at h)
  | inr (u, here) ↦ ground arith
]

validate_client_id-inside :
    (client_id : Option Text) (t : Client.Table) (u : Text) (e : ErrorCode) (s : Option Text)
    → validate_client_id client_id t ≢ err (redirect u e s)
unfolding validate_client_id find_by_client_id_or_alias
validate_client_id-inside client_id t u e s h = ground arith

validate_redirect_uri-inside :
    (client : Client) (given : Option Text) (u : Text) (e : ErrorCode) (s : Option Text)
    → validate_redirect_uri client given ≢ err (redirect u e s)
unfolding validate_redirect_uri
validate_redirect_uri-inside client given u e s h = ground arith

validate_schema-inside :
    (platform : Platform) (params : AuthorizeQueryParams) (u : Text) (e : ErrorCode)
    (s : Option Text)
    → validate_schema platform params ≢ err (redirect u e s)
unfolding validate_schema
validate_schema-inside platform params u e s h = ground arith

-- Whatever the request, an error that is sent on by a redirect goes to a URI that is registered for
-- the client that the request names.
pub redirects_to_registered :
    (platform : Platform) (params : AuthorizeQueryParams) (t : Client.Table) {uri : Text}
    {e : ErrorCode} {state : Option Text}
    → validate_authorize_request platform params t ≡ err (redirect uri e state)
    → (c : Client) × (validate_client_id params.client_id t ≡ ok c)
      × (includes c.redirect_uris uri ≡ true)
unfolding validate_authorize_request
redirects_to_registered platform params t {uri} {e} {state} h =
    elim (bind-eq-err (validate_schema platform params) _ h) [
      | inl bad ↦ absurd (validate_schema-inside platform params uri e state bad)
      | inr (_, fine, h1) ↦ elim (bind-eq-err (validate_client_id params.client_id t) _ h1) [
        | inl bad ↦ absurd (validate_client_id-inside params.client_id t uri e state bad)
        | inr (c, found, h2) ↦
            elim (bind-eq-err (validate_redirect_uri c params.redirect_uri) _ h2) [
              | inl bad ↦
                  absurd (validate_redirect_uri-inside c params.redirect_uri uri e state bad)
              | inr (u, accepted, h3) ↦ (
                c,
                found,
                subst (λ v. includes c.redirect_uris v ≡ true)
                    (sym (validate_for-Stays platform params c u uri e state h3))
                    (validate_redirect_uri-registered c params.redirect_uri accepted),
              )
            ]
      ]
    ]
