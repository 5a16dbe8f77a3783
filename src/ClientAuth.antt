-- ===== src/ClientAuth.antt =====
-- How clients authenticate: validateClientSecret of srv/src/services/client.service.ts,
-- validateClientCredentials and validatePublicClient of srv/src/auth/auth.service.ts, and parseBasicAuthHeader
-- of srv/src/util/http.util.ts. `scrypt` is the key derivation of the crypto library in hexadecimal and
-- `secrets` the column `client_secrets`; `decode` is the decoding of base64.
pub mod Accepted
pub mod Tests
use identity_ghost.Prelude.{
  ℕ, Bool, true, false, ◌&&◌, ◌||◌, not, Option, none, some, List, [], ◌∷◌, ltb, if◌then◌else◌, any,
  Text, text, ◌==◌, is_blank, eqb, split_on, starts_with,
}
use identity_ghost.Errors.{Result, ok, err, ◌>>=◌, oauth, invalid_client}
use identity_ghost.Client.{Client, Table, find_by_client_id_or_alias}
use identity_ghost.Policies.{ParsedName, parse_app_owned_role_name}

-- An entry of the column `client_secrets`.
pub record ClientSecret : Type 0 where
  pub secret : Text
  pub salt : Text
  pub expires_at : Option ℕ

pub record Credentials : Type 0 where
  pub username : Text
  pub password : Text

abbrev pub has_prefix : Text → Text → Bool
has_prefix [] s = true
has_prefix (c ∷ p) [] = false
has_prefix (c ∷ p) (d ∷ s) = eqb c d && has_prefix p s

-- `s.split(' ')[1]`
abbrev second : List Text → Text
second [] = []
second (w ∷ []) = []
second (w ∷ v ∷ ws) = v

-- What stands before and after the first colon, if neither is empty.
abbrev at_colon : Option ParsedName → Option Credentials
at_colon none = none
at_colon (some p) = some (record { username = p.app_name; password = p.role_name })

-- `parseBasicAuthHeader`; the decoded text is divided in the way of parseAppOwnedRoleName.
unfoldable pub parse_basic_auth_header : (Text → Text) → Option Text → Option Credentials
unfolding parse_app_owned_role_name split_on
parse_basic_auth_header decode header = elim header [
  | none ↦ none
  | some h ↦
      if has_prefix (text "Basic ") h
      then at_colon (parse_app_owned_role_name (decode (second (split_on b' ' h))))
      else none
]

abbrev pub is_past : ℕ → Option ℕ → Bool
is_past now none = false
is_past now (some t) = ltb t now

module _ (scrypt : Text → Text → Text) (secrets : Client → List ClientSecret) where
  abbrev pub matches : ℕ → Text → ClientSecret → Bool
  matches now secret entry =
      not (is_past now entry.expires_at) && entry.secret == scrypt secret entry.salt

  unfoldable pub validate_client_secret : ℕ → Client → Text → Bool
  validate_client_secret now c secret =
      if c.is_public then true else any (matches now secret) (secrets c)

  -- A `catch` that turns any exception of the look-up into a failed authentication.
  abbrev pub found_or_refused : Result Client → Result Client
  found_or_refused (ok c) = ok c
  found_or_refused (err e) = err (oauth invalid_client)

  unfoldable pub validate_client_credentials : Table → ℕ → Text → Text → Result Client
  unfolding find_by_client_id_or_alias validate_client_secret
  validate_client_credentials clients now client_id secret =
      found_or_refused (find_by_client_id_or_alias client_id clients) >>= λ c.
      if c.is_public
      then err (oauth invalid_client)
      else if validate_client_secret now c secret
      then ok c
      else err (oauth invalid_client)

  unfoldable pub validate_public_client : Table → Text → Result Client
  unfolding find_by_client_id_or_alias
  validate_public_client clients client_id =
      found_or_refused (find_by_client_id_or_alias client_id clients) >>= λ c.
      if not c.is_public then err (oauth invalid_client) else ok c
