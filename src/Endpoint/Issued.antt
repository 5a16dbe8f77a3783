-- ===== src/Endpoint/Issued.antt =====
-- When GET /authorize issues a code.
use identity_ghost.Prelude.{
  ◌≡◌, ◌≢◌, ◌⊎◌, refl, ap, ◌∙◌, subst, Bool, true, false, ◌||◌, Option, some, List, arith, or_else,
  Text, text, or_null, is_text, Option-cases, Bool-cases, inl, inr,
}
use identity_ghost.Errors.{Exception, Result, ok, err, bind-eq-ok, Result-cases}
use identity_ghost.Scope.{resolve_scopes}
use identity_ghost.Client.{Client, find_by_client_id_or_alias, is_first_party}
use identity_ghost.Session.{LoginSession, find_session_by_sid}
use identity_ghost.Consent
use identity_ghost.Consent.{granted, check_consent}
use identity_ghost.AuthCode
use identity_ghost.AuthCode.{create_auth_token}
use identity_ghost.Authorize.{ValidatedAuthorizeRequest, validate_authorize_request}
use identity_ghost.Authorize.Bindings.{IsBound, validate-IsBound}
use identity_ghost.Endpoint
use identity_ghost.Endpoint.{
  Server, Stores, Request, Response, code_redirect, Decision, issue, resolve_session, is_expired,
  allowed_or_default, choose, consents_to, decide_with, decide, code_params, caught,
  issue_code_and_redirect, respond, authorize, is_prompt,
}

-- Everything that a request must have passed when a code is issued for it.
pub record IsIssued (server : Server) (request : Request) (stores : Stores) (codes : AuthCode.Table)
    (uri code : Text) (codes' : AuthCode.Table) : Type 0 where
  pub validated : ValidatedAuthorizeRequest
  pub bound : IsBound server.platform request.query stores.clients validated
  pub target : uri ≡ validated.redirect_uri
  pub sid : Text
  pub cookie : or_null request.sid ≡ some sid
  pub session : LoginSession
  pub live : find_session_by_sid sid request.now stores.sessions ≡ some session
  pub recent : is_expired validated.max_age request.later session ≡ false
  pub not_denied : is_text request.query.consent_denied (text "true") ≡ false
  pub no_prompt :
      (is_text validated.prompt (text "login") ≡ false)
      × (is_text validated.prompt (text "consent") ≡ false)
  pub client : Client
  pub named :
      find_by_client_id_or_alias (or_else request.query.client_id (text "")) stores.clients
      ≡ ok client
  pub scopes : List Text
  pub resolved : resolve_scopes (some validated.scope) (allowed_or_default client) ≡ ok scopes
  pub consented :
      (is_first_party server.origin server.base_url client validated.redirect_uri ≡ true)
      ⊎ (check_consent session.user_id client.client_id scopes stores.consents ≡ granted)
  pub confirmed :
      (client.tenant.skip_session_confirm ≡ true)
      ⊎ (is_text request.query.session_confirmed (text "true") ≡ true)
  pub created :
      create_auth_token
        (code_params request validated session client)
        request.otp
        request.random
        request.issued
        codes
      ≡ (code, codes')

-- An exception never ends in a code.
caught-inside :
    (e : Exception) (uri code : Text) (state : Option Text)
    → caught e ≢ code_redirect uri code state
caught-inside e uri code state h = ground arith

resolve_session-eq-some :
    (server : Server) (request : Request) (stores : Stores) (v : ValidatedAuthorizeRequest)
    {s : LoginSession}
    → resolve_session request.sid v.max_age request.now request.later stores.sessions ≡ some s
    → (sid : Text) × (or_null request.sid ≡ some sid)
      × (find_session_by_sid sid request.now stores.sessions ≡ some s)
      × (is_expired v.max_age request.later s ≡ false)
unfolding resolve_session
resolve_session-eq-some server request stores v {s} h = elim (Option-cases (or_null request.sid)) [
  | inl gone ↦ absurd (ground arith)
  | inr (sid, cookie) ↦ elim (Option-cases (find_session_by_sid sid request.now stores.sessions)) [
    | inl gone ↦ absurd (ground arith)
    | inr (r, found) ↦ elim (Bool-cases (is_expired v.max_age request.later r)) [
      | inl old ↦ let bad = rw (cookie, found, old, resolve_session) at h in absurd (ground arith)
      | inr recent ↦
          let same : r ≡ s = ground arith in
          (
            sid,
            cookie,
            found ∙ ap some same,
            subst (λ x. is_expired v.max_age request.later x ≡ false) same recent,
          )
    ]
  ]
]

choose-eq-issue :
    (asks_consent consented confirmed : Bool) (r : LoginSession) (client : Client)
    {s : LoginSession} {c : Client}
    → Path
        (Result Decision)
        (ok (choose asks_consent consented confirmed r client))
        (ok (issue s c))
    → (r ≡ s) × (client ≡ c) × (asks_consent ≡ false) × (consented ≡ true) × (confirmed ≡ true)
choose-eq-issue asks_consent consented confirmed r client h = ground arith

either : (a b : Bool) → (a || b) ≡ true → (a ≡ true) ⊎ (b ≡ true)
either true b h = inl refl
either false b h = inr h

consents_to-eq-true : (check : Consent.Check) → consents_to check ≡ true → check ≡ granted
consents_to-eq-true granted h = refl
consents_to-eq-true (Consent.required scopes) h = cc

module _ (server : Server) (request : Request) (stores : Stores)
    (v : ValidatedAuthorizeRequest) where
  -- What the first checks leave of a request for which a code is to be issued.
  decide-eq-issue :
      {s : LoginSession} {c : Client}
      → decide server request stores v ≡ ok (issue s c)
      → (r : LoginSession) × (resolve_session request.sid v.max_age request.now request.later
            stores.sessions
          ≡ some r)
        × (decide_with server request stores v r ≡ ok (issue s c))
        × (is_text request.query.consent_denied (text "true") ≡ false)
        × (is_text v.prompt (text "login") ≡ false)
  unfolding decide
  decide-eq-issue {s} {c} h =
      elim (Option-cases
        (resolve_session request.sid v.max_age request.now request.later stores.sessions)) [
          | inl gone ↦ absurd (ground arith)
          | inr (r, here) ↦ (r, here, ground arith, ground arith, ground arith)
        ]

  -- What the last checks have established of the session and the client.
  abbrev IsPassed : LoginSession → Client → Type 0
  IsPassed s c =
      (find_by_client_id_or_alias (or_else request.query.client_id (text "")) stores.clients ≡ ok c)
      × ((scopes : List Text) × (resolve_scopes (some v.scope) (allowed_or_default c) ≡ ok scopes)
          × ((is_first_party server.origin server.base_url c v.redirect_uri
                || consents_to (check_consent s.user_id c.client_id scopes stores.consents))
              ≡ true))
      × ((c.tenant.skip_session_confirm || is_text request.query.session_confirmed (text "true"))
          ≡ true)
      × (is_text v.prompt (text "consent") ≡ false)

  decide_with-eq-issue :
      (r : LoginSession) {s : LoginSession} {c : Client}
      → decide_with server request stores v r ≡ ok (issue s c)
      → (r ≡ s) × IsPassed s c
  unfolding decide_with
  decide_with-eq-issue r {s} {c} h =
      let (client, named, h1) =
        bind-eq-ok
          (find_by_client_id_or_alias (or_else request.query.client_id (text "")) stores.clients) _
          h in
      let (scopes, resolved, h2) =
        bind-eq-ok (resolve_scopes (some v.scope) (allowed_or_default client)) _ h1 in
      let (same, same_client, unasked, consented, confirmed) = choose-eq-issue _ _ _ r client h2 in
      (
        same,
        subst (λ x. IsPassed x c) same
            (subst (λ x. IsPassed r x) same_client
              (named, (scopes, resolved, consented), confirmed, unasked)),
      )

  -- A code comes from the decision to issue one.
  respond-eq-code :
      (d : Result Decision) (codes : AuthCode.Table) {uri code : Text} {state : Option Text}
      {codes' : AuthCode.Table}
      → respond request stores v d codes ≡ (code_redirect uri code state, codes')
      → (s : LoginSession) × (c : Client) × (d ≡ ok (issue s c))
        × (uri ≡ v.redirect_uri)
        × (create_auth_token
              (code_params request v s c)
              request.otp
              request.random
              request.issued
              codes
            ≡ (code, codes'))
  unfolding respond issue_code_and_redirect
  respond-eq-code (err e) codes h =
      absurd (caught-inside e _ _ _ (ap (λ (x : Response × AuthCode.Table). x.0) h))
  respond-eq-code (ok (Endpoint.refuse e)) codes h = absurd (ground arith)
  respond-eq-code (ok (Endpoint.show view)) codes h = absurd (ground arith)
  respond-eq-code (ok (issue s c)) codes h = (s, c, refl, ground arith, ground arith)

-- A code is issued only to the redirect URI that is registered for the client, for a session that
-- the signed cookie names and that is neither over nor too old for `max_age`, where neither a login
-- nor a consent was asked for, the user's consent is on record or the client is first-party, and the
-- session was confirmed or the tenant skips that; and it is bound to the validated request.
pub authorize-eq-code :
    (server : Server) (request : Request) (stores : Stores) (codes : AuthCode.Table)
    {uri code : Text} {state : Option Text} {codes' : AuthCode.Table}
    → authorize server request stores codes ≡ (code_redirect uri code state, codes')
    → IsIssued server request stores codes uri code codes'
unfolding authorize
authorize-eq-code server request stores codes {uri} {code} {state} {codes'} h =
    elim (Result-cases (validate_authorize_request server.platform request.query stores.clients)) [
      | inr (e, bad) ↦ absurd (
          caught-inside e uri code state
            (ap (λ (x : Response × AuthCode.Table). x.0) (rw (bad, authorize) at h)))
      | inl (v, fine) ↦
          let (s, c, decided, target, created) =
            respond-eq-code server request stores v (decide server request stores v) codes
              (rw (fine, authorize) at h) in
          let (r, resolved, passed, denied, no_login) =
            decide-eq-issue server request stores v decided in
          let (same, checks) = decide_with-eq-issue server request stores v r passed in
          let (named, chosen, confirmed, no_consent) = checks in
          let (scopes, granted_scopes, consented) = chosen in
          let (sid, cookie, live, recent) =
            resolve_session-eq-some server request stores v (resolved ∙ ap some same) in
          record {
            validated = v;
            bound = validate-IsBound server.platform request.query stores.clients fine;
            target = target;
            sid = sid;
            cookie = cookie;
            session = s;
            live = live;
            recent = recent;
            not_denied = denied;
            no_prompt = (no_login, no_consent);
            client = c;
            named = named;
            scopes = scopes;
            resolved = granted_scopes;
            consented = elim (either _ _ consented) [
              | inl first ↦ inl first
              | inr given ↦ inr (consents_to-eq-true _ given)
            ];
            confirmed = either _ _ confirmed;
            created = created;
          }
    ]
