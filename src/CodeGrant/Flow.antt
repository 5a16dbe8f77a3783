-- ===== src/CodeGrant/Flow.antt =====
-- From GET /authorize to the exchange of the code that it issued.
use identity_ghost.Prelude.{
  ◌≡◌, ◌≢◌, refl, sym, ap, ◌∙◌, subst, ℕ, ◌+◌, ◌<◌, Bool, Option, none, some, List, [], ◌∷◌, Text,
  text, or_null, or_else,
}
use identity_ghost.Errors.{ok-injective, Result, ok}
use identity_ghost.AuthCode
use identity_ghost.AuthCode.{
  AuthCode, lifetime_ms, code_row, use_at, create_auth_token, redeem_auth_code, Database,
}
use identity_ghost.AuthCode.Lifecycle.{created_redeems}
use identity_ghost.AuthCode.Redemption.{redeem_auth_code-reads}
use identity_ghost.Endpoint.{Server, Request, Stores, code_redirect, code_params, authorize}
use identity_ghost.Endpoint.Issued.{IsIssued, authorize-eq-code}
use identity_ghost.CodeGrant.{
  CodeGrantBody, Hashes, IssueRequest, generate_code_challenge, handle_code_grant,
}
use identity_ghost.CodeGrant.Exchange.{IsMatch, accept-IsMatch, handle_code_grant-redeems}

some-injective : {a b : AuthCode} → Path (Option AuthCode) (some a) (some b) → a ≡ b
some-injective e = cc

or_null_idempotent :
    (o : Option Text) {c : Text} → or_null o ≡ some c → or_null (or_null o) ≡ some c
or_null_idempotent none h = h
or_null_idempotent (some []) h = h
or_null_idempotent (some (x ∷ xs)) h = h

or_null-some : (s : Text) → s ≢ [] → or_null (some s) ≡ some s
or_null-some [] h = absurd (h refl)
or_null-some (x ∷ xs) h = refl

-- On every database, tokens for a code that GET /authorize has just issued go only to a request with the client id of
-- the authorization request, its redirect URI, and a verifier of its PKCE challenge where it had one;
-- they are for the user of the session and the tenant of the client that the code was issued for.
pub code_flow_bound :
    (server : Server) (request : Request) (stores : Stores) (codes codes' t' : AuthCode.Table)
    (valid : CodeGrantBody → Bool) (hashes : Hashes) (users tenants : List Text) (db : Database)
    (body : CodeGrantBody) (later : ℕ) {uri code : Text} {state : Option Text} {r : IssueRequest}
    → authorize server request stores codes ≡ (code_redirect uri code state, codes')
    → later < request.issued + lifetime_ms
    → body.code ≡ code
    → handle_code_grant valid hashes users tenants db body later codes' ≡ (ok r, t')
    → (i : IsIssued server request stores codes uri code codes') × (body.client_id
        ≡ or_else request.query.client_id (text ""))
      × (uri ≢ [] → or_null body.redirect_uri ≡ some uri)
      × ((c : Text)
          → or_null i.validated.code_challenge ≡ some c
          → (v : Text) × (or_null body.code_verifier ≡ some v)
            × (generate_code_challenge hashes v
                  (code_params request i.validated i.session i.client).method
                ≡ c))
      × (r.user_id ≡ i.session.user_id)
      × (r.tenant_id ≡ i.client.tenant.id)
unfolding code_row code_params
code_flow_bound server request stores codes codes' t' valid hashes users tenants db body later {uri}
      {code} {state} {r} issued live same exchanged =
    let i = authorize-eq-code server request stores codes issued in
    let p = code_params request i.validated i.session i.client in
    let (row, redeemed, accepted) =
      handle_code_grant-redeems valid hashes users tenants db body later codes' t' exchanged in
    let read = redeem_auth_code-reads db body.code later codes' t' redeemed in
    let stored : (redeem_auth_code db code later codes').0
        ≡ ok (some (use_at later (code_row p code request.issued))) =
      subst
        (λ (x : Text × AuthCode.Table).
          (redeem_auth_code db x.0 later x.1).0
          ≡ ok (some (use_at later (code_row p x.0 request.issued))))
        i.created
        (created_redeems db p request.otp request.random request.issued later codes read live) in
    let found : row ≡ use_at later (code_row p code request.issued) = some-injective (
      ok-injective (
        sym (ap (λ (x : Result (Option AuthCode) × AuthCode.Table). x.0) redeemed)
        ∙ ap (λ c. (redeem_auth_code db c later codes').0) same
        ∙ stored)) in
    let m : IsMatch hashes body (use_at later (code_row p code request.issued)) r =
      subst (λ x. IsMatch hashes body x r) found
        (accept-IsMatch hashes users tenants body row accepted) in
    (
      i,
      m.own_client,
      (λ filled. m.same_redirect uri (
          subst (λ u. or_null (or_null (some u)) ≡ some uri) i.target
            (or_null_idempotent (some uri) (or_null-some uri filled)))),
      (λ c given. m.proven c (or_null_idempotent _ given)),
      m.for_user,
      m.for_tenant,
    )
