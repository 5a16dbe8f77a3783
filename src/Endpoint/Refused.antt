-- ===== src/Endpoint/Refused.antt =====
-- Where the errors of GET /authorize are sent, and silent requests.
use identity_ghost.Prelude.{
  ◌≡◌, ◌≢◌, refl, sym, ap, ◌∙◌, subst, true, false, Option, some, List, arith, or_else, Text, text,
  Text-discrete, is_text, includes, Option-cases, inl, inr,
}
use identity_ghost.Errors.{
  ErrorCode, Exception, Result, ok, err, bind-eq-err, Result-cases, redirect,
}
use identity_ghost.Scope.{resolve_scopes}
use identity_ghost.Client.{Client, find_by_client_id_or_alias, is_first_party}
use identity_ghost.Session.{LoginSession}
use identity_ghost.Consent.{check_consent}
use identity_ghost.AuthCode
use identity_ghost.Authorize.{
  ValidatedAuthorizeRequest, validate_client_id, validate_authorize_request,
}
use identity_ghost.Authorize.Bindings.{validate-IsBound}
use identity_ghost.Authorize.Redirects.{redirects_to_registered, scopes-inside}
use identity_ghost.Endpoint
use identity_ghost.Endpoint.{
  Server, Stores, Request, Response, error_redirect, ui_redirect, Decision, issue, resolve_session,
  allowed_or_default, choose, consents_to, consent_view, decide_with, decide, caught,
  issue_code_and_redirect, respond, authorize, is_prompt,
}

module _ (server : Server) (request : Request) (stores : Stores)
    (v : ValidatedAuthorizeRequest) where
  decide_with-inside :
      (r : LoginSession) (u : Text) (e : ErrorCode) (s : Option Text)
      → decide_with server request stores v r ≢ err (redirect u e s)
  unfolding decide_with find_by_client_id_or_alias
  decide_with-inside r u e s h =
      elim (bind-eq-err
        (find_by_client_id_or_alias (or_else request.query.client_id (text "")) stores.clients) _
        h) [
          | inl bad ↦ ground arith
          | inr (client, named, h1) ↦
              elim (bind-eq-err (resolve_scopes (some v.scope) (allowed_or_default client)) _ h1) [
                | inl bad ↦ scopes-inside (some v.scope) (allowed_or_default client) u e s bad
                | inr (scopes, resolved, h2) ↦ cc
              ]
        ]

  decide-inside :
      (u : Text) (e : ErrorCode) (s : Option Text)
      → decide server request stores v ≢ err (redirect u e s)
  unfolding decide
  decide-inside u e s h =
      elim (Option-cases
        (resolve_session request.sid v.max_age request.now request.later stores.sessions)) [
          | inl gone ↦ ground arith
          | inr (r, here) ↦ ground (arith, decide_with-inside r u e s)
        ]

  respond-eq-error :
      (d : Result Decision) (codes : AuthCode.Table) {uri : Text} {e : ErrorCode}
      {state : Option Text} {codes' : AuthCode.Table}
      → ((u : Text) (e : ErrorCode) (s : Option Text) → d ≢ err (redirect u e s))
      → respond request stores v d codes ≡ (error_redirect uri e state, codes')
      → (uri ≡ v.redirect_uri) × (codes' ≡ codes)
  unfolding respond issue_code_and_redirect
  respond-eq-error (err (redirect u x s)) codes inside h = absurd (inside u x s refl)
  respond-eq-error (err (Exception.oauth x)) codes inside h = absurd (ground arith)
  respond-eq-error (err Exception.bad_request) codes inside h = absurd (ground arith)
  respond-eq-error (err Exception.unauthorized) codes inside h = absurd (ground arith)
  respond-eq-error (err Exception.forbidden) codes inside h = absurd (ground arith)
  respond-eq-error (err Exception.not_found) codes inside h = absurd (ground arith)
  respond-eq-error (err Exception.ambiguous_client) codes inside h = absurd (ground arith)
  respond-eq-error (err Exception.internal) codes inside h = absurd (ground arith)
  respond-eq-error (ok (Endpoint.refuse x)) codes inside h = (ground arith, ground arith)
  respond-eq-error (ok (Endpoint.show view)) codes inside h = absurd (ground arith)
  respond-eq-error (ok (issue s c)) codes inside h = absurd (ground arith)

  -- With a session and a client that is not first-party, the consent view is what follows where
  -- consent is missing and none was asked for anew.
  decide_with-consent_view :
      (session : LoginSession) {client : Client} {scopes : List Text}
      → find_by_client_id_or_alias (or_else request.query.client_id (text "")) stores.clients
        ≡ ok client
      → resolve_scopes (some v.scope) (allowed_or_default client) ≡ ok scopes
      → is_first_party server.origin server.base_url client v.redirect_uri ≡ false
      → consents_to (check_consent session.user_id client.client_id scopes stores.consents) ≡ false
      → is_prompt v (text "consent") ≡ false
      → decide_with server request stores v session ≡ ok (Endpoint.show consent_view)
  unfolding decide_with
  decide_with-consent_view session named resolved third missing unasked =
      rw (named, decide_with, resolved, third, missing, unasked) refl

-- A silent request is not always answered silently: with a session and a client that is not
-- first-party, where the consent is missing, a valid request with `prompt=none` is redirected to the
-- consent view and not back to the client.
pub silent_shows_consent :
    (server : Server) (request : Request) (stores : Stores) (codes : AuthCode.Table)
    {v : ValidatedAuthorizeRequest} {session : LoginSession} {client : Client} {scopes : List Text}
    → validate_authorize_request server.platform request.query stores.clients ≡ ok v
    → v.prompt ≡ some (text "none")
    → is_text request.query.consent_denied (text "true") ≡ false
    → is_text request.query.from_logout (text "true") ≡ false
    → resolve_session request.sid v.max_age request.now request.later stores.sessions ≡ some session
    → find_by_client_id_or_alias (or_else request.query.client_id (text "")) stores.clients
      ≡ ok client
    → resolve_scopes (some v.scope) (allowed_or_default client) ≡ ok scopes
    → is_first_party server.origin server.base_url client v.redirect_uri ≡ false
    → consents_to (check_consent session.user_id client.client_id scopes stores.consents) ≡ false
    → authorize server request stores codes ≡ (ui_redirect consent_view v, codes)
unfolding authorize decide respond Text-discrete
silent_shows_consent server request stores codes {v} {session} fine silent denied out live named
      resolved third missing =
    rw
      (
        fine,
        authorize,
        denied,
        out,
        silent,
        live,
        decide_with-consent_view server request stores v session named resolved third missing
            (rw silent refl),
      )
      refl

caught-eq-error :
    (x : Exception) {uri : Text} {e : ErrorCode} {state : Option Text}
    → caught x ≡ error_redirect uri e state
    → (s : Option Text) × (x ≡ redirect uri e s)
caught-eq-error (redirect u x s) h = (s, ground arith)
caught-eq-error (Exception.oauth x) h = absurd (ground arith)
caught-eq-error Exception.bad_request h = absurd (ground arith)
caught-eq-error Exception.unauthorized h = absurd (ground arith)
caught-eq-error Exception.forbidden h = absurd (ground arith)
caught-eq-error Exception.not_found h = absurd (ground arith)
caught-eq-error Exception.ambiguous_client h = absurd (ground arith)
caught-eq-error Exception.internal h = absurd (ground arith)

-- Every error that the handler sends on by a redirect goes to a URI that is registered for the client
-- that the request names, and no code is created then.
pub authorize-eq-error :
    (server : Server) (request : Request) (stores : Stores) (codes : AuthCode.Table) {uri : Text}
    {e : ErrorCode} {state : Option Text} {codes' : AuthCode.Table}
    → authorize server request stores codes ≡ (error_redirect uri e state, codes')
    → ((c : Client) × (validate_client_id request.query.client_id stores.clients ≡ ok c)
        × (includes c.redirect_uris uri ≡ true))
      × (codes' ≡ codes)
unfolding authorize
authorize-eq-error server request stores codes {uri} {e} {state} {codes'} h =
    elim (Result-cases (validate_authorize_request server.platform request.query stores.clients)) [
      | inr (x, bad) ↦
          let h1 = rw (bad, authorize) at h in
          let (s, same) = caught-eq-error x (ap (λ (r : Response × AuthCode.Table). r.0) h1) in
          (
            redirects_to_registered server.platform request.query stores.clients
                (bad ∙ ap err same),
            sym (ap (λ (r : Response × AuthCode.Table). r.1) h1),
          )
      | inl (v, fine) ↦
          let b = validate-IsBound server.platform request.query stores.clients fine in
          let (target, kept) =
            respond-eq-error server request stores v (decide server request stores v) codes
              (decide-inside server request stores v) (rw (fine, authorize) at h) in
          (
            (
              b.client,
              b.found,
              subst (λ u. includes b.client.redirect_uris u ≡ true) (sym target) b.registered,
            ),
            kept,
          )
    ]
