-- ===== src/Client.antt =====
-- srv/src/entity/client.entity.ts and the look-ups of srv/src/services/client.service.ts, with
-- srv/src/auth/resource-indicator.validator.ts and the parts of a tenant that flows read.
pub mod Resource
use identity_ghost.Prelude.{
  Bool, true, false, not, ◌&&◌, Option, none, some, List, if◌then◌else◌, find, Text, ◌==◌, is_text,
  is_blank,
}
use identity_ghost.Errors.{Result, ok, err, not_found, ambiguous_client}

-- The columns of srv/src/entity/tenant.entity.ts that the authorization flow reads.
pub record Tenant : Type 0 where
  pub id : Text
  pub domain : Text
  pub skip_session_confirm : Bool

pub record Client : Type 0 where
  pub id : Text
  pub client_id : Text
  pub redirect_uris : List Text
  pub allowed_scopes : Option Text
  pub is_public : Bool
  pub require_pkce : Bool
  pub pkce_method_used : Option Text
  pub allow_password_grant : Bool
  pub allow_refresh_token : Bool
  pub alias : Option Text
  pub allowed_resources : Option (List Text)
  pub tenant_id : Text
  pub tenant : Tenant

abbrev pub Table : Type 0
Table = List Client

-- What `findByClientIdOrAlias` makes of the rows found by id and by alias.
abbrev pub pick : Option Client → Option Client → Result Client
pick none none = err not_found
pick none (some b) = ok b
pick (some a) none = ok a
pick (some a) (some b) = if not (a.id == b.id) then err ambiguous_client else ok a

unfoldable pub find_by_client_id_or_alias : Text → Table → Result Client
find_by_client_id_or_alias value t =
    pick (find (λ c. c.client_id == value) t) (find (λ c. is_text c.alias value) t)

-- `FirstPartyResolver.isDefaultClient`; a client row always has its tenant.
unfoldable pub is_default_client : Client → Bool
is_default_client c = is_text c.alias c.tenant.domain

-- `FirstPartyResolver.isFirstParty`. `origin` is the `origin` of the platform's `URL`, or none where
-- the constructor throws; `base_url` is the setting `BASE_URL`.
abbrev same_origin : Option Text → Option Text → Bool
same_origin (some a) (some b) = a == b
same_origin _ _ = false

unfoldable pub is_first_party : (Text → Option Text) → Text → Client → Text → Bool
unfolding is_default_client
is_first_party origin base_url c redirect_uri =
    not (is_blank base_url)
    && same_origin (origin redirect_uri) (origin base_url)
    && is_default_client c
