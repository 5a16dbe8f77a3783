-- ===== src/AccessToken.antt =====
-- validateAccessToken of srv/src/auth/auth.service.ts. `decode` and `verify` are the JWT library (the payload
-- unchecked, and the payload once signature and times are checked with a public key), `schema` the
-- schema library's check of the payload. Errors of the database are not modelled.
pub mod Accepted
pub mod Tests
use identity_ghost.Prelude.{
  Bool, true, false, ◌&&◌, ◌||◌, not, Option, none, some, List, [], ◌∷◌, if◌then◌else◌, is_some,
  Text, text, ◌==◌, find,
}
use identity_ghost.Errors.{
  Result, ok, err, ◌>>=◌, ◌>>◌, throw_if, or_throw, oauth, invalid_token, internal,
}
use identity_ghost.IdTokenHint.{Audience, array, other, audience_list}
use identity_ghost.Directory.{
  User, Directory, find_user, find_tenant, is_member, is_user_subscribed_to_tenant,
}
use identity_ghost.KeyManagement.{get_public_key_by_kid}
use identity_ghost.KeyManagement

-- The payload as it is decoded: whether a required claim other than `aud` is there, and what is read.
pub record RawClaims : Type 0 where
  pub iss : Option Text
  pub sub : Option Text
  pub aud : Option Audience
  pub exp : Option Text
  pub iat : Option Text
  pub nbf : Option Text
  pub jti : Option Text
  pub tenant_id : Text
  pub kid : Text

-- The payload that the library has verified; `tenant` is the id in its tenant claim.
pub record Token : Type 0 where
  pub is_technical : Bool
  pub sub : Text
  pub tenant_id : Text
  pub tenant : Text
  pub scopes : List Text
  pub client_id : Text
  pub aud : List Text

pub record Libraries : Type 0 where
  pub decode : Text → Option RawClaims
  pub schema : RawClaims → Bool
  pub verify : Text → Text → Option Token

abbrev pub has_required : RawClaims → Bool
has_required c =
    is_some c.iss
    && is_some c.sub
    && is_some c.aud
    && is_some c.exp
    && is_some c.iat
    && is_some c.nbf
    && is_some c.jti

abbrev pub has_array_aud : Option Audience → Bool
has_array_aud none = false
has_array_aud (some a) = is_some (audience_list a)

module _ (lib : Libraries) (directory : Directory) (membership_check_enabled : Bool) where
  -- `isMember`, then `checkSubscriptionAccess`
  unfoldable pub check_membership : User → Text → Result (Unit {0})
  unfolding is_member is_user_subscribed_to_tenant
  check_membership user tenant_id =
      if is_member directory tenant_id user.id
      then ok tt
      else find_tenant directory tenant_id >>= λ t.
          throw_if (not (is_user_subscribed_to_tenant directory user.id t.id)) (oauth invalid_token)

  -- What is checked of the verified payload.
  unfoldable pub check_holder : Token → Result Token
  unfolding check_membership
  check_holder token =
      if token.is_technical
      then (if token.sub == text "oauth" then ok token else err internal)
      else find_user directory token.sub >>= λ user.
          throw_if user.locked (oauth invalid_token)
          >> ((if membership_check_enabled then check_membership user token.tenant_id else ok tt)
              >> ok token)

  unfoldable pub check_token : KeyManagement.Table → Text → Result Token
  unfolding check_holder get_public_key_by_kid
  check_token keys token = do
    raw ← or_throw (lib.decode token) internal
    throw_if (not (has_required raw)) internal
    throw_if (not (has_array_aud raw.aud)) internal
    throw_if (not (lib.schema raw)) internal
    key ← get_public_key_by_kid raw.kid raw.tenant_id keys
    payload ← or_throw (lib.verify token key) internal
    check_holder payload

  -- Whatever went wrong, the caller sees `invalid_token`.
  abbrev pub or_invalid_token : Result Token → Result Token
  or_invalid_token (ok t) = ok t
  or_invalid_token (err e) = err (oauth invalid_token)

  unfoldable pub validate_access_token : KeyManagement.Table → Text → Result Token
  unfolding check_token
  validate_access_token keys token = or_invalid_token (check_token keys token)
