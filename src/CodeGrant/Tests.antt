-- ===== src/CodeGrant/Tests.antt =====
-- The exchange of the code that the tests of the authorization endpoint issue.
use identity_ghost.Prelude.{
  ◌≡◌, ◌≢◌, refl, true, false, none, some, [], ◌∷◌, arith, Text, text, Text-discrete, or_null,
}
use identity_ghost.Errors.{ok, err, oauth, invalid_grant}
use identity_ghost.AuthCode.{AuthCode, use_at, redeem_auth_code, sqlite}
use identity_ghost.Endpoint.{code_params}
use identity_ghost.Endpoint.Issued.{IsIssued}
use identity_ghost.Endpoint.Tests.{server, stores, get_code, new_code, issues}
use identity_ghost.CodeGrant.{
  CodeGrantBody, Hashes, IssueRequest, generate_code_challenge, handle_code_grant,
}
use identity_ghost.CodeGrant.Exchange.{IsMatch, exchanged_once}
use identity_ghost.CodeGrant.Flow.{code_flow_bound}

abbrev same_hash : Hashes
same_hash = record { sha256 = λ v. v; one_way_hash = λ v. v }

abbrev exchange : CodeGrantBody
exchange = record {
  code = text "123";
  client_id = text "app";
  redirect_uri = some (text "https://b");
  code_verifier = some (text "ch");
  scope = none;
}

abbrev tokens_for : IssueRequest
tokens_for = record {
  user_id = text "u";
  tenant_id = text "t";
  subscriber_tenant_hint = none;
  requested_scope = some (text "openid");
  nonce = none;
  sid = some (text "s");
  require_auth_time = false;
  resource = none;
  oauth_client_id = text "app";
}

exchanges :
    handle_code_grant
      (λ _. true)
      same_hash
      (text "u" ∷ [])
      (text "t" ∷ [])
      sqlite
      exchange
      6000
      (new_code ∷ [])
    ≡ (ok tokens_for, use_at 6000 new_code ∷ [])
unfolding handle_code_grant Text-discrete
exchanges = refl

code_flow_bound_example :
    (i : IsIssued server get_code stores [] (text "https://b") (text "123") (new_code ∷ [])) × (text
        "app"
      ≡ text "app")
    × (text "https://b" ≢ [] → some (text "https://b") ≡ some (text "https://b"))
    × ((c : Text)
        → or_null i.validated.code_challenge ≡ some c
        → (v : Text) × (some (text "ch") ≡ some v)
          × (generate_code_challenge same_hash v
                (code_params get_code i.validated i.session i.client).method
              ≡ c))
    × (text "u" ≡ i.session.user_id)
    × (text "t" ≡ i.client.tenant.id)
code_flow_bound_example =
    code_flow_bound server get_code stores [] (new_code ∷ []) (use_at 6000 new_code ∷ [])
      (λ _. true) same_hash (text "u" ∷ []) (text "t" ∷ []) sqlite exchange 6000 issues
      (ground arith) refl exchanges

exchanged_once_example :
    ((row : AuthCode) × (redeem_auth_code sqlite (text "123") 6000 (new_code ∷ [])
        ≡ (ok (some row), use_at 6000 new_code ∷ []))
      × IsMatch same_hash exchange row tokens_for)
    × (handle_code_grant
          (λ _. true)
          same_hash
          (text "u" ∷ [])
          (text "t" ∷ [])
          sqlite
          exchange
          7000
          (use_at 6000 new_code ∷ [])
        ≡ (err (oauth invalid_grant), use_at 6000 new_code ∷ []))
exchanged_once_example =
    exchanged_once (λ _. true) same_hash (text "u" ∷ []) (text "t" ∷ []) sqlite exchange exchange
      6000 7000 (new_code ∷ []) (use_at 6000 new_code ∷ []) exchanges refl refl (ground arith)
