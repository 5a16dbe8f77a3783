-- ===== src/AuthCode.antt =====
-- srv/src/auth/auth-code.service.ts over the table of srv/src/entity/auth_code.entity.ts.
-- The table is a list of rows. Times are milliseconds and random values are arguments.
pub mod Redemption
pub mod Lifecycle
mod Tests
use identity_ghost.Prelude.{
  ℕ, ◌+◌, ◌*◌, ◌++◌, Bool, true, false, ◌&&◌, ◌||◌, not, Option, none, some, List, [], ◌∷◌, leb,
  ltb, if◌then◌else◌, is_some, filter, find, update_where, any, Text, ◌==◌, or_null, or_else,
}
use identity_ghost.Errors.{Result, ok, err, oauth, invalid_grant}

pub record AuthCode : Type 0 where
  pub code : Text
  pub code_challenge : Option Text
  pub method : Option Text
  pub user_id : Text
  pub tenant_id : Text
  pub subscriber_tenant_hint : Option Text
  pub client_id : Text
  pub redirect_uri : Option Text
  pub scope : Option Text
  pub nonce : Option Text
  pub used : Bool
  pub used_at : Option ℕ
  pub expires_at : ℕ
  pub sid : Option Text
  pub require_auth_time : Bool
  pub resource : Option Text

abbrev pub Table : Type 0
Table = List AuthCode

abbrev pub has_code : Text → AuthCode → Bool
has_code code r = r.code == code

unfoldable pub exist_by_code : Text → Table → Bool
exist_by_code code t = any (has_code code) t

unfoldable pub find_by_code : Text → Table → Result AuthCode
find_by_code code t = elim (find (has_code code) t) [
  | none ↦ err (oauth invalid_grant)
  | some row ↦ ok row
]

unfoldable pub has_auth_code_with_hint : Text → Table → Bool
has_auth_code_with_hint code t = any (λ r. has_code code r && is_some r.subscriber_tenant_hint) t

-- The arguments of `createAuthToken`; those that may be left out are options.
pub record CodeParams : Type 0 where
  pub user_id : Text
  pub tenant_id : Text
  pub client_id : Text
  pub code_challenge : Option Text
  pub method : Option Text
  pub subscriber_tenant_hint : Option Text
  pub redirect_uri : Option Text
  pub scope : Option Text
  pub nonce : Option Text
  pub sid : Option Text
  pub require_auth_time : Option Bool
  pub resource : Option Text

-- `5 * 60 * 1000`
abbrev pub lifetime_ms : ℕ
lifetime_ms = 5 * 60 * 1000

unfoldable pub code_row : CodeParams → Text → ℕ → AuthCode
code_row p code now = record {
  code = code;
  code_challenge = p.code_challenge;
  method = p.method;
  user_id = p.user_id;
  tenant_id = p.tenant_id;
  subscriber_tenant_hint = or_null p.subscriber_tenant_hint;
  client_id = p.client_id;
  redirect_uri = or_null p.redirect_uri;
  scope = or_null p.scope;
  nonce = or_null p.nonce;
  used = false;
  used_at = none;
  expires_at = now + lifetime_ms;
  sid = or_null p.sid;
  require_auth_time = or_else p.require_auth_time false;
  resource = or_null p.resource;
}

-- `save` of a row with a primary key: a row that has the key is overwritten.
unfoldable pub save : AuthCode → Table → Table
save row t =
    if any (has_code row.code) t
    then update_where (has_code row.code) (λ _. row) t
    else t ++ row ∷ []

-- The code that `createAuthToken` takes: six digits, or sixteen characters if these exist already.
unfoldable pub choose_code : Text → Text → Table → Text
unfolding exist_by_code
choose_code otp random t = if exist_by_code otp t then random else otp

unfoldable pub create_auth_token : CodeParams → Text → Text → ℕ → Table → Text × Table
unfolding choose_code code_row save
create_auth_token p otp random now t =
    let code = choose_code otp random t in (code, save (code_row p code now) t)

-- `SET used = true, used_at = NOW()`
abbrev pub use_at : ℕ → AuthCode → AuthCode
use_at now r = record r { used = true; used_at = some now }

-- `WHERE code = $1 AND used = false AND expires_at > NOW()`
abbrev pub is_redeemable : Text → ℕ → AuthCode → Bool
is_redeemable code now r = has_code code r && not r.used && ltb now r.expires_at

-- `postgres pairs`: whether the library answers `query` with the pair of the changed rows and their count,
-- as typeorm does for an `UPDATE` on PostgreSQL, or with the rows.
pub data Database : Type 0 where
  sqlite : Database
  postgres : Bool → Database

-- The row of the answer, or none for an `AuthCode` all of whose fields are undefined: the pair is
-- never empty, and its first component is an array, which has none of the columns.
abbrev pub row_of_answer : Bool → Option AuthCode → Result (Option AuthCode)
row_of_answer true changed = ok none
row_of_answer false none = err (oauth invalid_grant)
row_of_answer false (some row) = ok (some row)

-- `redeemAuthCodePostgres`: one statement, which returns the rows that it has changed.
unfoldable pub redeem_postgres : Bool → Text → ℕ → Table → Result (Option AuthCode) × Table
redeem_postgres pairs code now t = elim (find (is_redeemable code now) t) [
  | none ↦ (row_of_answer pairs none, t)
  | some row ↦ (
    row_of_answer pairs (some (use_at now row)),
    update_where (is_redeemable code now) (use_at now) t,
  )
]

-- `WHERE code = :code AND used = 0`
abbrev pub is_unused : Text → AuthCode → Bool
is_unused code r = has_code code r && not r.used

-- From the update on: the count of changed rows is tested, and the row is fetched again.
unfoldable pub claim_sqlite : Text → ℕ → Table → Result AuthCode × Table
unfolding find_by_code
claim_sqlite code now t =
    if any (is_unused code) t
    then (
      find_by_code code (update_where (is_unused code) (use_at now) t),
      update_where (is_unused code) (use_at now) t,
    )
    else (err (oauth invalid_grant), t)

-- `redeemAuthCodeSqlite`
unfoldable pub redeem_sqlite : Text → ℕ → Table → Result AuthCode × Table
unfolding claim_sqlite
redeem_sqlite code now t = elim (find (has_code code) t) [
  | none ↦ (err (oauth invalid_grant), t)
  | some row ↦
      if leb row.expires_at now then (err (oauth invalid_grant), t) else claim_sqlite code now t
]

abbrev pub as_row : Result AuthCode × Table → Result (Option AuthCode) × Table
as_row (ok row, t) = (ok (some row), t)
as_row (err e, t) = (err e, t)

-- `redeemAuthCode`, by the kind of database.
unfoldable pub redeem_auth_code : Database → Text → ℕ → Table → Result (Option AuthCode) × Table
unfolding redeem_postgres redeem_sqlite
redeem_auth_code sqlite code now t = as_row (redeem_sqlite code now t)
redeem_auth_code (postgres pairs) code now t = redeem_postgres pairs code now t

-- `deleteExpiredAuthCodes`: what is kept.
unfoldable pub delete_expired_auth_codes : ℕ → Table → Table
delete_expired_auth_codes now t = filter (λ r. not (ltb r.expires_at now || r.used)) t
