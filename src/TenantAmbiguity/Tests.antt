-- ===== src/TenantAmbiguity/Tests.antt =====
-- A member of a tenant that subscribes to the app of a client.
use identity_ghost.Prelude.{◌≡◌, refl, ◌||◌, true, some, [], ◌∷◌, text, Text-discrete, ◌==◌}
use identity_ghost.Errors.{ok}
use identity_ghost.Client.{Client, find_by_client_id_or_alias}
use identity_ghost.Directory.{App}
use identity_ghost.Authorize.Tests.{strict_client}
use identity_ghost.Policies.Tests.{guest, directory}
use identity_ghost.TenantAmbiguity.{app_of, find_subscriber_tenants, resolve_hint}
use identity_ghost.TenantAmbiguity.Sound.{MayChoose, resolve_hint-MayChoose}

abbrev linked_client : Client
linked_client = record strict_client { id = text "c" }

chosen : find_subscriber_tenants directory (linked_client ∷ []) (text "u") (text "app") ≡ guest ∷ []
unfolding find_subscriber_tenants Text-discrete
chosen = refl

resolve_hint-MayChoose_example :
    (c : Client) × (find_by_client_id_or_alias (text "app") (linked_client ∷ []) ≡ ok c)
    × (app : App) × (app_of directory c ≡ some app)
    × MayChoose directory (text "u") app guest
    × ((guest.domain == text "g" || guest.id == text "g") ≡ true)
unfolding resolve_hint Text-discrete
resolve_hint-MayChoose_example =
    resolve_hint-MayChoose directory (linked_client ∷ []) (text "u") (text "app") (text "g") refl
