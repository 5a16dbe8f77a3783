-- ===== src/CodeGrant.antt =====
-- The authorization code grant: handleCodeGrant of srv/src/controllers/oauth-token.controller.ts up to
-- its call of issueToken, and generateCodeChallenge of srv/src/util/crypt.util.ts. `valid` is the
-- schema of the body; users and tenants are lists of ids.
pub mod Exchange
pub mod Flow
mod Tests
use identity_ghost.Prelude.{
  ℕ, Bool, true, false, not, Option, none, some, List, [], ◌∷◌, if◌then◌else◌, Text, text, ◌==◌,
  or_null, is_text, includes,
}
use identity_ghost.Errors.{
  Result, ok, err, ◌>>=◌, ◌>>◌, throw_if, oauth, bad_request, not_found, invalid_grant,
}
use identity_ghost.AuthCode.{AuthCode, Table, Database, redeem_auth_code}

pub record CodeGrantBody : Type 0 where
  pub code : Text
  pub client_id : Text
  pub redirect_uri : Option Text
  pub code_verifier : Option Text
  pub scope : Option Text

-- The two hashes of a verifier: SHA-256 in base64url, and `oneWayHash`.
pub record Hashes : Type 0 where
  pub sha256 : Text → Text
  pub one_way_hash : Text → Text

unfoldable pub generate_code_challenge : Hashes → Text → Option Text → Text
generate_code_challenge hashes verifier method =
    if is_text method (text "S256")
    then hashes.sha256 verifier
    else if is_text method (text "OWH32")
    then hashes.one_way_hash verifier
    else verifier

-- The arguments of the call of `issueToken`.
pub record IssueRequest : Type 0 where
  pub user_id : Text
  pub tenant_id : Text
  pub subscriber_tenant_hint : Option Text
  pub requested_scope : Option Text
  pub nonce : Option Text
  pub sid : Option Text
  pub require_auth_time : Bool
  pub resource : Option Text
  pub oauth_client_id : Text

unfoldable pub check_redirect_uri : Option Text → Option Text → Result (Unit {0})
check_redirect_uri given stored = elim (or_null stored) [
  | none ↦ ok tt
  | some uri ↦ elim (or_null given) [
    | none ↦ err (oauth invalid_grant)
    | some g ↦ throw_if (not (g == uri)) (oauth invalid_grant)
  ]
]

unfoldable pub check_pkce : Hashes → Option Text → Option Text → Option Text → Result (Unit {0})
unfolding generate_code_challenge
check_pkce hashes verifier challenge method = elim (or_null challenge) [
  | none ↦ ok tt
  | some c ↦ elim (or_null verifier) [
    | none ↦ err (oauth invalid_grant)
    | some v ↦ throw_if (not (generate_code_challenge hashes v method == c)) (oauth invalid_grant)
  ]
]

-- `body.scope || authCode.scope`
abbrev pub scope_or : Option Text → Option Text → Option Text
scope_or none stored = stored
scope_or (some []) stored = stored
scope_or (some (c ∷ s)) stored = some (c ∷ s)

-- The checks on the redeemed code.
unfoldable pub accept :
    Hashes → List Text → List Text → CodeGrantBody → AuthCode → Result IssueRequest
unfolding check_redirect_uri check_pkce
accept hashes users tenants body row = do
  throw_if (not (body.client_id == row.client_id)) (oauth invalid_grant)
  check_redirect_uri body.redirect_uri row.redirect_uri
  check_pkce hashes body.code_verifier row.code_challenge row.method
  throw_if (not (includes users row.user_id)) not_found
  throw_if (not (includes tenants row.tenant_id)) not_found
  ok (record {
    user_id = row.user_id;
    tenant_id = row.tenant_id;
    subscriber_tenant_hint = row.subscriber_tenant_hint;
    requested_scope = scope_or body.scope row.scope;
    nonce = row.nonce;
    sid = row.sid;
    require_auth_time = row.require_auth_time;
    resource = row.resource;
    oauth_client_id = row.client_id;
  })

-- A code without fields has no client id, so the first check refuses it.
abbrev pub continue_with :
    (AuthCode → Result IssueRequest)
    → Result (Option AuthCode) × Table
    → Result IssueRequest × Table
continue_with next (err e, t) = (err e, t)
continue_with next (ok none, t) = (err (oauth invalid_grant), t)
continue_with next (ok (some row), t) = (next row, t)

unfoldable pub handle_code_grant :
    (CodeGrantBody → Bool)
    → Hashes
    → List Text
    → List Text
    → Database
    → CodeGrantBody
    → ℕ
    → Table
    → Result IssueRequest × Table
unfolding accept redeem_auth_code
handle_code_grant valid hashes users tenants db body now t =
    if not (valid body)
    then (err bad_request, t)
    else continue_with (accept hashes users tenants body) (redeem_auth_code db body.code now t)
