-- ===== src/ClientAuth/Tests.antt =====
-- A confidential client with one secret.
use identity_ghost.Prelude.{◌≡◌, refl, false, none, some, List, [], ◌∷◌, Text, text, Text-discrete}
use identity_ghost.Errors.{ok, err, oauth, invalid_client}
use identity_ghost.Client.{Client}
use identity_ghost.Authorize.Tests.{strict_client}
use identity_ghost.ClientAuth.{ClientSecret, parse_basic_auth_header, validate_client_credentials}

abbrev pub confidential : Client
confidential = record strict_client { is_public = false }

abbrev pub scrypt : Text → Text → Text
scrypt secret salt = secret

abbrev pub secrets : Client → List ClientSecret
secrets c =
    record { secret = text "old"; salt = text "x"; expires_at = some 5 }
    ∷ record { secret = text "new"; salt = text "y"; expires_at = none }
    ∷ []

lets_in :
    validate_client_credentials scrypt secrets (confidential ∷ []) 10 (text "app") (text "new")
    ≡ ok confidential
unfolding validate_client_credentials Text-discrete
lets_in = refl

too_old :
    validate_client_credentials scrypt secrets (confidential ∷ []) 10 (text "app") (text "old")
    ≡ err (oauth invalid_client)
unfolding validate_client_credentials Text-discrete
too_old = refl

reads_header :
    parse_basic_auth_header (λ t. t) (some (text "Basic id:se:cret"))
    ≡ some (record { username = text "id"; password = text "se:cret" })
unfolding parse_basic_auth_header
reads_header = refl
