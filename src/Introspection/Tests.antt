-- ===== src/Introspection/Tests.antt =====
-- A token that a client of its tenant asks about.
use identity_ghost.Prelude.{◌≡◌, refl, true, none, some, [], ◌∷◌, text, Text-discrete}
use identity_ghost.Errors.{ok, err, oauth, invalid_client}
use identity_ghost.Client.{Client}
use identity_ghost.Authorize.Tests.{strict_client}
use identity_ghost.Policies.Tests.{directory}
use identity_ghost.ClientAuth.Tests.{confidential, scrypt, secrets}
use identity_ghost.AccessToken.Tests.{libraries, keys}
use identity_ghost.Introspection.{
  Server, Active, IntrospectBody, active, introspect, handle_introspect,
}
use identity_ghost.Introspection.Laws.{IsReported, introspect-IsReported}

abbrev asking : Client
asking = record confidential { tenant_id = text "o" }

abbrev server : Server
server = record {
  scrypt = scrypt;
  secrets = secrets;
  clients = asking ∷ [];
  libraries = libraries;
  directory = directory;
  membership_check_enabled = true;
  keys = keys;
  base64 = λ t. t;
}

abbrev report : Active
report = record {
  sub = text "u";
  scope = text "openid";
  client_id = text "app";
  aud = text "super" ∷ [];
  exp = some (text "100");
  iat = some (text "1");
}

reports : introspect server 10 (text "app") (text "new") (text "jwt") ≡ ok (active report)
unfolding introspect Text-discrete
reports = refl

refuses : introspect server 10 (text "app") (text "bad") (text "jwt") ≡ err (oauth invalid_client)
unfolding introspect Text-discrete
refuses = refl

abbrev body : IntrospectBody
body = record {
  token = some (text "jwt");
  client_id = none;
  client_secret = none;
  authorization = some (text "Basic app:new");
}

handles : handle_introspect server 10 body ≡ ok (active report)
unfolding handle_introspect Text-discrete
handles = refl

introspect-IsReported_example : IsReported server 10 (text "app") (text "new") (text "jwt") report
introspect-IsReported_example =
    introspect-IsReported server 10 (text "app") (text "new") (text "jwt") reports

abbrev open_server : Server
open_server = record server { clients = strict_client ∷ [] }
