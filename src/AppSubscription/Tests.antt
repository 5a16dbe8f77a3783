-- ===== src/AppSubscription/Tests.antt =====
-- A tenant that subscribes to an app whose endpoint names a second app, and one that names itself.
use identity_ghost.Prelude.{
  ◌≡◌, refl, true, false, Option, none, some, [], ◌∷◌, Text, text, Text-discrete, decimal,
}
use identity_ghost.Errors.{Result, ok}
use identity_ghost.Directory.{App, Subscription, success, pending}
use identity_ghost.AppSubscription.{State, World, names, done, subscribe_app}
use identity_ghost.AppSubscription.Pending.{pends}
use identity_ghost.AppSubscription.Terminates.{subscribe_app-returns}
use identity_ghost.AppSubscription.Settled.{subscribe_app-settled}
use identity_ghost.AppSubscription.Unsubscribe.{unsubscribe}
use identity_ghost.AppSubscription.Unsubscribe.Offboarding.{IsCleared, unsubscribe-IsCleared}

abbrev shop : App
shop = record {
  id = text "a";
  name = text "shop";
  owner_id = text "o";
  client_id = text "c";
  onboarding_enabled = true;
  onboarding_callback_url = none;
  app_url = text "https://shop";
}

abbrev mail : App
mail = record shop { id = text "b"; name = text "mail"; onboarding_enabled = false }

-- The endpoint names no app, or `mail`.
abbrev world : World
world = record {
  apps = shop ∷ mail ∷ [];
  roles = [];
  reply = λ n app tenant. names [];
  draw = λ n. decimal n;
  describe = λ e. text "failed";
}

abbrev naming : World
naming = record world { reply = λ n app tenant. names (text "mail" ∷ []) }

abbrev start : State
start = record { subscriptions = []; user_roles = []; visited = []; calls = 0; drawn = 0 }

abbrev row_of : Text → Text → Subscription
row_of id app = record {
  id = id;
  subscriber_id = text "t";
  app_id = app;
  status = success;
  message = none;
}

abbrev end : State
end = record start {
  subscriptions = row_of (text "0") (text "a") ∷ [];
  visited = text "a" ∷ [];
  calls = 1;
  drawn = 1;
}

subscribes :
    subscribe_app world (text "t") 3 true shop start
    ≡ done (ok (some (row_of (text "0") (text "a")))) end
unfolding subscribe_app Text-discrete decimal
subscribes = refl

subscribe_app-returns_example :
    (r : Result (Option Subscription)) × (s' : State) × (subscribe_app naming
        (text "t")
        3
        true
        shop
        start
      ≡ done r s')
subscribe_app-returns_example = subscribe_app-returns naming (text "t") 1 true shop start

-- A third app whose onboarding is under way.
abbrev waiting : Subscription
waiting = record (row_of (text "9") (text "z")) { status = pending }

abbrev busy : State
busy = record start { subscriptions = waiting ∷ [] }

abbrev busy_end : State
busy_end = record end { subscriptions = waiting ∷ end.subscriptions }

subscribes_busy :
    subscribe_app world (text "t") 3 true shop busy
    ≡ done (ok (some (row_of (text "0") (text "a")))) busy_end
unfolding subscribe_app Text-discrete decimal
subscribes_busy = refl

subscribe_app-settled_example : pends busy.subscriptions (text "9") ≡ true
unfolding Text-discrete
subscribe_app-settled_example =
    subscribe_app-settled world (text "t") 3 true shop busy busy_end subscribes_busy (text "9") refl

-- The second app is left with the first: its name is in the answer of the endpoint.
abbrev gone : State
gone = record end { subscriptions = []; visited = text "b" ∷ text "a" ∷ []; calls = 2 }

abbrev joined : State
joined = record end {
  subscriptions = row_of (text "0") (text "a") ∷ row_of (text "1") (text "b") ∷ [];
  visited = [];
}

leaves : unsubscribe naming (text "t") 3 true shop joined ≡ done (ok true) gone
unfolding unsubscribe Text-discrete
leaves = refl

unsubscribe-IsCleared_example : IsCleared naming (text "t") shop (row_of (text "0") (text "a")) gone
unfolding Text-discrete
unsubscribe-IsCleared_example =
    unsubscribe-IsCleared naming (text "t") 3 true shop (row_of (text "0") (text "a")) joined gone
      refl (λ e. cc) leaves
