-- ===== src/CodeGrant/Exchange.antt =====
-- What an exchange of a code for tokens has checked.
use identity_ghost.Prelude.{
  ◌≡◌, refl, ap, subst, ℕ, ◌≤◌, Bool, true, not, Option, some, List, arith, Text, ◌==◌, or_null,
  includes, none, Option-cases, Bool-cases, inl, inr,
}
use identity_ghost.Errors.{
  ok-injective, Exception, Result, ok, err, throw_if, oauth, invalid_grant, bind-eq-ok,
}
use identity_ghost.AuthCode.{AuthCode, Table, Database, redeem_auth_code}
use identity_ghost.AuthCode.Redemption.{redeemed_once}
use identity_ghost.CodeGrant.{
  CodeGrantBody, Hashes, IssueRequest, generate_code_challenge, check_redirect_uri, check_pkce,
  scope_or, accept, continue_with, handle_code_grant,
}

-- How a request for tokens matches the code that it redeems.
pub record IsMatch (hashes : Hashes) (body : CodeGrantBody) (row : AuthCode) (r : IssueRequest)
    : Type 0 where
  pub own_client : body.client_id ≡ row.client_id
  pub same_redirect :
      (uri : Text) → or_null row.redirect_uri ≡ some uri → or_null body.redirect_uri ≡ some uri
  pub proven :
      (c : Text)
      → or_null row.code_challenge ≡ some c
      → (v : Text) × (or_null body.code_verifier ≡ some v)
        × (generate_code_challenge hashes v row.method ≡ c)
  pub for_user : r.user_id ≡ row.user_id
  pub for_tenant : r.tenant_id ≡ row.tenant_id
  pub for_client : r.oauth_client_id ≡ row.client_id
  pub for_session : r.sid ≡ row.sid
  pub scope : r.requested_scope ≡ scope_or body.scope row.scope

check_redirect_uri-eq-ok :
    (given stored : Option Text) {u : Unit {0}} (uri : Text)
    → check_redirect_uri given stored ≡ ok u
    → or_null stored ≡ some uri
    → or_null given ≡ some uri
unfolding check_redirect_uri
check_redirect_uri-eq-ok given stored uri h e = elim (Option-cases (or_null given)) [
  | inl gone ↦ absurd (ground arith)
  | inr (g, here) ↦ ground arith
]

check_pkce-eq-ok :
    (hashes : Hashes) (verifier challenge method : Option Text) {u : Unit {0}} (c : Text)
    → check_pkce hashes verifier challenge method ≡ ok u
    → or_null challenge ≡ some c
    → (v : Text) × (or_null verifier ≡ some v) × (generate_code_challenge hashes v method ≡ c)
unfolding check_pkce
check_pkce-eq-ok hashes verifier challenge method c h e = elim (Option-cases (or_null verifier)) [
  | inl gone ↦ absurd (ground arith)
  | inr (v, here) ↦ (v, here, ground arith)
]

same_client : (a b : Text) {u : Unit {0}} (e : Exception) → throw_if (not (a == b)) e ≡ ok u → a ≡ b
same_client a b e h = ground arith

pub accept-IsMatch :
    (hashes : Hashes) (users tenants : List Text) (body : CodeGrantBody) (row : AuthCode)
    {r : IssueRequest}
    → accept hashes users tenants body row ≡ ok r
    → IsMatch hashes body row r
unfolding accept
accept-IsMatch hashes users tenants body row {r} h =
    let (_, own, h1) =
      bind-eq-ok (throw_if (not (body.client_id == row.client_id)) (oauth invalid_grant)) _ h in
    let (_, redirected, h2) =
      bind-eq-ok (check_redirect_uri body.redirect_uri row.redirect_uri) _ h1 in
    let (_, proven, h3) =
      bind-eq-ok (check_pkce hashes body.code_verifier row.code_challenge row.method) _ h2 in
    let (_, known, h4) = bind-eq-ok (throw_if (not (includes users row.user_id)) _) _ h3 in
    let (_, there, h5) = bind-eq-ok (throw_if (not (includes tenants row.tenant_id)) _) _ h4 in
    subst (IsMatch hashes body row) (ok-injective h5) (record {
      own_client = same_client _ _ _ own;
      same_redirect = λ uri e. check_redirect_uri-eq-ok _ _ uri redirected e;
      proven = λ c e. check_pkce-eq-ok hashes _ _ row.method c proven e;
      for_user = refl;
      for_tenant = refl;
      for_client = refl;
      for_session = refl;
      scope = refl;
    })

continue_with-eq-ok :
    (next : AuthCode → Result IssueRequest) (s : Result (Option AuthCode) × Table) (t' : Table)
    {r : IssueRequest}
    → continue_with next s ≡ (ok r, t')
    → (row : AuthCode) × (s ≡ (ok (some row), t')) × (next row ≡ ok r)
continue_with-eq-ok next (err e, t) t' h = absurd (ground arith)
continue_with-eq-ok next (ok none, t) t' h = absurd (ground arith)
continue_with-eq-ok next (ok (some row), t) t' h = (
  row,
  ap (λ (x : Result IssueRequest × Table). (ok (some row), x.1)) h,
  ap (λ (x : Result IssueRequest × Table). x.0) h,
)

module _ (valid : CodeGrantBody → Bool) (hashes : Hashes) (users tenants : List Text)
    (db : Database) where
  -- The redemption that an exchange which succeeds rests on.
  pub handle_code_grant-redeems :
      (body : CodeGrantBody) (now : ℕ) (t t' : Table) {r : IssueRequest}
      → handle_code_grant valid hashes users tenants db body now t ≡ (ok r, t')
      → (row : AuthCode) × (redeem_auth_code db body.code now t ≡ (ok (some row), t'))
        × (accept hashes users tenants body row ≡ ok r)
  unfolding handle_code_grant
  handle_code_grant-redeems body now t t' {r} h = elim (Bool-cases (valid body)) [
    | inl fine ↦
        continue_with-eq-ok (accept hashes users tenants body) (redeem_auth_code db body.code now t)
          t' (rw (fine, handle_code_grant) at h)
    | inr bad ↦ absurd (ground arith)
  ]

  -- On every database, an exchange that succeeds has matched the client, the redirect URI and the
  -- PKCE verifier with those of the code, and is the last one: any later well-formed request with
  -- that code is refused with invalid_grant, whatever else it says, and changes nothing.
  pub exchanged_once :
      (body again : CodeGrantBody) (now later : ℕ) (t t' : Table) {r : IssueRequest}
      → handle_code_grant valid hashes users tenants db body now t ≡ (ok r, t')
      → again.code ≡ body.code
      → valid again ≡ true
      → now ≤ later
      → ((row : AuthCode) × (redeem_auth_code db body.code now t ≡ (ok (some row), t'))
          × IsMatch hashes body row r)
        × (handle_code_grant valid hashes users tenants db again later t'
            ≡ (err (oauth invalid_grant), t'))
  unfolding handle_code_grant
  exchanged_once body again now later t t' {r} h same fine le =
      let (row, redeemed, accepted) = handle_code_grant-redeems body now t t' h in
      let refused = redeemed_once db body.code now later t t' redeemed le in
      (
        (row, redeemed, accept-IsMatch hashes users tenants body row accepted),
        rw (fine, handle_code_grant, same, refused) refl,
      )
