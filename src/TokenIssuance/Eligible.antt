-- ===== src/TokenIssuance/Eligible.antt =====
-- When a refresh token comes with the access token, and what is stored for it.
use identity_ghost.Prelude.{
  ◌≡◌, ◌⊎◌, refl, sym, ap, ◌∙◌, Bool, true, false, ◌||◌, Option, none, some, List, [], ◌∷◌, ◌++◌,
  arith, Text, text, or_null, includes, Bool-cases, inl, inr, any, ℕ,
}
use identity_ghost.Errors.{Result, ok, err, ok-injective}
use identity_ghost.Scope.{format}
use identity_ghost.RefreshToken.{
  RefreshToken, CreateParams, Issued, same_parent, save, first_row, create,
}
use identity_ghost.RefreshToken
use identity_ghost.Client.{Client, Tenant}
use identity_ghost.Directory.{User}
use identity_ghost.Tokens.{
  GrantType, password, client_credentials, refresh_token, authorization_code,
}
use identity_ghost.TokenIssuance.{
  Server, Draws, Stores, IssueTokenOptions, TokenResponse, eligible, grant_of,
  should_issue_refresh_token, is_password, new_or_loose, session_for, put_tokens, refresh_token_for,
  resolve_client, issue_token,
}
use identity_ghost.TokenIssuance.Issue.{issue_token-eq-ok}

-- The rule: never for client credentials, else with `offline_access` or by the client's own setting.
pub eligible_iff :
    (scopes : List Text) (client : Client) (grant : GrantType)
    → eligible (should_issue_refresh_token scopes client grant) ≡ true
    → includes scopes (text "offline_access") || client.allow_refresh_token ≡ true
unfolding should_issue_refresh_token
eligible_iff scopes client client_credentials h = cc
eligible_iff scopes client password h = ground arith
eligible_iff scopes client refresh_token h = ground arith
eligible_iff scopes client authorization_code h = ground arith

-- Finding the session never touches the refresh tokens.
session_for-tokens :
    (server : Server) (draws : Draws) (user : User) (tenant : Tenant) (o : IssueTokenOptions)
    (s : Stores)
    → (session_for server draws user tenant o s).1.tokens ≡ s.tokens
unfolding session_for
session_for-tokens server draws user tenant o s = go (or_null o.sid) refl
  where
    loose : (b c : Bool) → (new_or_loose server draws user tenant b c s).1.tokens ≡ s.tokens
    loose true c = refl
    loose false true = refl
    loose false false = refl

    go :
        (sid : Option Text)
        → or_null o.sid ≡ sid
        → (session_for server draws user tenant o s).1.tokens ≡ s.tokens
    go none e =
        rw (e, session_for) (loose (is_password (grant_of o.grant_type)) o.require_auth_time)
    go (some sid) e = rw (e, session_for) refl

create-eq-ok :
    (hash : Text → Text) (config : RefreshToken.Config) (p : CreateParams)
    (fresh : RefreshToken.Fresh) (now later : ℕ) (t t' : RefreshToken.Table) {i : Issued}
    → create hash config p fresh now later t ≡ (ok i, t')
    → (i.plaintext ≡ fresh.plaintext) × (t' ≡ t ++ first_row hash config p fresh now later ∷ [])
unfolding create save
create-eq-ok hash config p fresh now later t t' {i} h =
    let row = first_row hash config p fresh now later in
    elim (Bool-cases (any (same_parent row.parent_id) t)) [
      | inl clash ↦ let bad = rw clash at h in cc
      | inr free ↦
          let e = rw free at h in
          (
            sym (
                ap (λ (x : Issued). x.plaintext)
                  (ok-injective (ap (λ (x : Result Issued × RefreshToken.Table). x.0) e))),
            sym (ap (λ (x : Result Issued × RefreshToken.Table). x.1) e),
          )
    ]

module _ (server : Server) (draws : Draws) (user : User) (tenant : Tenant)
    (o : IssueTokenOptions) where
  -- A refresh token was stored for this user and tenant, with the scopes of the response.
  pub record IsRenewable (r : TokenResponse) (s s' : Stores) : Type 0 where
    pub client : Client
    pub found : resolve_client server.clients tenant o.oauth_client_id ≡ ok client
    pub scopes : List Text
    pub same_scope : r.scope ≡ format scopes
    pub allowed : includes scopes (text "offline_access") || client.allow_refresh_token ≡ true
    pub row : RefreshToken
    pub stored : s'.tokens ≡ s.tokens ++ row ∷ []
    pub of_user : row.user_id ≡ user.id
    pub of_tenant : row.tenant_id ≡ tenant.id
    pub of_client : row.client_id ≡ client.client_id
    pub of_scope : row.scope ≡ r.scope
    pub hashed : row.token_hash ≡ server.hash draws.refresh.plaintext
    pub handed : r.refresh_token ≡ or_null (some draws.refresh.plaintext)

  put-eq-ok :
      (s : Stores) (c : Result Issued × RefreshToken.Table) {x : Option Text} {s' : Stores}
      → put_tokens s c ≡ (ok x, s')
      → (i : Issued) × (c ≡ (ok i, s'.tokens)) × (x ≡ some i.plaintext)
  put-eq-ok s (ok i, t) {x} {s'} h = (
    i,
    ap (λ (z : Stores). (ok i, z.tokens)) (ap (λ (y : Result (Option Text) × Stores). y.1) h),
    sym (ok-injective (ap (λ (y : Result (Option Text) × Stores). y.0) h)),
  )
  put-eq-ok s (err e, t) h = cc

  -- The response has a refresh token only if `offline_access` is granted or the client is set to get one;
  -- then exactly one row is added, whose hash is that of the token that is handed out and which is
  -- bound to the user, the tenant, the client and the scopes of the response. Otherwise the response
  -- has none and the table is as it was.
  pub issue_token-refresh :
      (s s' : Stores) {r : TokenResponse}
      → issue_token server draws user tenant o s ≡ (ok r, s')
      → IsRenewable r s s' ⊎ ((r.refresh_token ≡ none) × (s'.tokens ≡ s.tokens))
  unfolding refresh_token_for first_row
  issue_token-refresh s s' {r} h =
      let i = issue_token-eq-ok server draws user tenant o s s' h in
      let c = i.completed in
      let reason = should_issue_refresh_token i.issued.1 i.client (grant_of o.grant_type) in
      let kept : c.between.tokens ≡ s.tokens =
        ap (λ (x : Result (ℕ × Text) × Stores). x.1.tokens) (sym c.begun)
        ∙ session_for-tokens server draws user tenant o s in
      elim (Bool-cases (eligible reason)) [
        | inr denied ↦
            let e = rw denied at c.renewable in
            inr (
              c.response.refresh_token
                  ∙ ap (λ x. or_null x)
                      (sym (ok-injective (ap (λ (x : Result (Option Text) × Stores). x.0) e))),
              sym (ap (λ (x : Result (Option Text) × Stores). x.1.tokens) e) ∙ kept,
            )
        | inl wanted ↦
            let p : CreateParams = record {
              user_id = user.id;
              client_id = i.client.client_id;
              tenant_id = tenant.id;
              scope = format i.issued.1;
              sid = some c.session.1;
            } in
            let (j, created, handed) =
              put-eq-ok c.between
                (create server.hash server.refresh_config p draws.refresh draws.now draws.later
                  c.between.tokens)
                (rw wanted at c.renewable) in
            let (plain, stored) =
              create-eq-ok server.hash server.refresh_config p draws.refresh draws.now draws.later
                c.between.tokens s'.tokens created in
            inl (record {
              client = i.client;
              found = i.found;
              scopes = i.issued.1;
              same_scope = c.response.scope;
              allowed = eligible_iff i.issued.1 i.client (grant_of o.grant_type) wanted;
              row =
                  first_row server.hash server.refresh_config p draws.refresh draws.now draws.later;
              stored =
                  stored
                  ∙ ap
                      (λ t.
                        t
                        ++ first_row server.hash server.refresh_config p draws.refresh draws.now
                            draws.later
                          ∷ [])
                      kept;
              of_user = refl;
              of_tenant = refl;
              of_client = refl;
              of_scope = sym c.response.scope;
              hashed = refl;
              handed =
                  c.response.refresh_token ∙ ap (λ x. or_null x) (handed ∙ ap (λ t. some t) plain);
            })
      ]
