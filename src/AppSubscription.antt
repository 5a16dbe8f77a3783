-- ===== src/AppSubscription.antt =====
-- srv/src/services/app-subscription.service.ts over the subscriptions of `Directory`. `reply` is the call of an
-- app's endpoint, from the technical token to the parsed answer, at the n-th call; `draw` gives the id of
-- the n-th new row, and `describe` the message of an exception. Subscribing recurs through the apps that
-- an endpoint names, so it runs on fuel: `out_of_fuel` is no behaviour of the code.
pub mod Pending
pub mod Terminates
pub mod Settled
pub mod Further
pub mod Unsubscribe
mod Tests
use identity_ghost.Prelude.{
  ℕ, zero, suc, ◌+◌, ◌++◌, Bool, true, false, ◌&&◌, ◌||◌, not, Option, none, some, List, [], ◌∷◌,
  if◌then◌else◌, filter, find, update_where, any, Text, ◌==◌, is_blank, is_text, or_null, includes,
  map,
}
use identity_ghost.Errors.{Exception, Result, ok, err, internal, not_found}
use identity_ghost.Directory.{
  App, Role, UserRole, Subscription, SubscriptionStatus, success, pending, canceled, failed,
}

pub record State : Type 0 where
  pub subscriptions : List Subscription
  pub user_roles : List UserRole
  pub visited : List Text
  pub calls : ℕ
  pub drawn : ℕ

-- What the endpoint of an app answers: a failure, or the names of further apps.
pub data Reply : Type 0 where
  refused : Reply
  names : List Text → Reply

pub record World : Type 0 where
  pub apps : List App
  pub roles : List Role
  pub reply : ℕ → App → Text → Reply
  pub draw : ℕ → Text
  pub describe : Exception → Text

pub data Outcome {ℓ} (A : Type ℓ) : Type ℓ where
  out_of_fuel : Outcome A
  done : Result A → State → Outcome A

-- The next step of a loop, if the last one returned.
abbrev pub and_then {ℓ κ} : {A : Type ℓ} {B : Type κ} → Outcome A → (State → Outcome B) → Outcome B
and_then out_of_fuel next = out_of_fuel
and_then (done (ok a) s) next = next s
and_then (done (err e) s) next = done (err e) s

-- `where: {subscriber: {id}, app: {id}}`
abbrev pub is_of : Text → App → Subscription → Bool
is_of tenant app s = s.subscriber_id == tenant && s.app_id == app.id

-- `save`: over the row of this id, or as a new one.
unfoldable pub put : Subscription → List Subscription → List Subscription
put row t =
    if any (λ s. s.id == row.id) t
    then update_where (λ s. s.id == row.id) (λ _. row) t
    else t ++ row ∷ []

unfoldable pub remove_row : Text → List Subscription → List Subscription
remove_row id t = filter (λ s. not (s.id == id)) t

abbrev pub find_named : List App → Text → Option App
find_named apps name = find (λ a. a.name == name) apps

-- `app.onboardingCallbackUrl || app.appUrl`
abbrev pub given_url : Option Text → Text → Bool
given_url (some url) fallback = true
given_url none fallback = not (is_blank fallback)

abbrev pub has_endpoint : App → Bool
has_endpoint app = given_url (or_null app.onboarding_callback_url) app.app_url

module _ (world : World) (tenant : Text) where
  -- The loop over the names, where `visit` is the recursive call for one app.
  unfoldable pub visit_all {ℓ} :
      {A : Type ℓ} → (App → State → Outcome A) → List Text → State → Outcome (Unit {0})
  visit_all visit [] s = done (ok tt) s
  visit_all visit (name ∷ rest) s = elim (find_named world.apps name) [
    | none ↦ done (err not_found) s
    | some app ↦ and_then (visit app s) (visit_all visit rest)
  ]

  abbrev pub after_reply {ℓ} :
      {A : Type ℓ} → (App → State → Outcome A) → Reply → State → Outcome (Unit {0})
  after_reply visit refused s = done (err internal) s
  after_reply visit (names ns) s = visit_all visit ns s

  abbrev pub counted : State → State
  counted s = record s { calls = s.calls + 1 }

  -- `callOnboardEndpoint` and `callOffboardingEndpoint`; for the token of the request `app.owner.domain` is
  -- read, which throws where the app was loaded without its owner.
  unfoldable pub call_endpoint {ℓ} :
      {A : Type ℓ} → (App → State → Outcome A) → Bool → App → State → Outcome (Unit {0})
  unfolding visit_all
  call_endpoint visit owner_loaded app s =
      if app.onboarding_enabled && has_endpoint app
      then (if owner_loaded
          then after_reply visit (world.reply s.calls app tenant) (counted s)
          else done (err internal) s)
      else done (ok tt) s

  abbrev pub new_row : App → State → Subscription
  new_row app s = record {
    id = world.draw s.drawn;
    subscriber_id = tenant;
    app_id = app.id;
    status = pending;
    message = none;
  }

  -- With the row saved as pending.
  abbrev pub begun : App → State → State
  begun app s = record s {
    subscriptions = put (new_row app s) s.subscriptions;
    visited = app.id ∷ s.visited;
    drawn = s.drawn + 1;
  }

  abbrev pub succeeded : Subscription → Subscription
  succeeded row = record row { status = success; message = none }

  abbrev pub with_error : Exception → Subscription → Subscription
  with_error e row = record row { status = failed; message = some (world.describe e) }

  -- The end of the `try` and its `catch`.
  abbrev pub settle : Subscription → Outcome (Unit {0}) → Outcome (Option Subscription)
  settle row out_of_fuel = out_of_fuel
  settle row (done (ok _) s) =
      done (ok (some (succeeded row)))
        (record s { subscriptions = put (succeeded row) s.subscriptions })
  settle row (done (err e) s) =
      done (err e) (record s { subscriptions = put (with_error e row) s.subscriptions })

  -- From the test of the visited apps on; `existing` is what an app that was visited is answered with.
  unfoldable pub begin :
      (App → State → Outcome (Option Subscription))
      → App
      → Option Subscription
      → State
      → Outcome (Option Subscription)
  unfolding call_endpoint put
  begin visit app existing s =
      if includes s.visited app.id
      then done (ok existing) s
      else settle (new_row app s) (call_endpoint visit true app (begun app s))

  abbrev pub without : Subscription → State → State
  without row s = record s { subscriptions = remove_row row.id s.subscriptions }

  -- What becomes of a subscription that is there already.
  unfoldable pub resume :
      (App → State → Outcome (Option Subscription))
      → App
      → SubscriptionStatus
      → Subscription
      → State
      → Outcome (Option Subscription)
  unfolding begin remove_row
  resume visit app pending row s = done (err internal) s
  resume visit app failed row s = begin visit app (some row) (without row s)
  resume visit app success row s = done (ok (some row)) s
  resume visit app canceled row s = done (ok (some row)) s

  -- The first test reads `app.owner.id`, which throws where the app was loaded without its owner.
  unfoldable pub attempt :
      (App → State → Outcome (Option Subscription))
      → Bool
      → App
      → State
      → Outcome (Option Subscription)
  unfolding resume begin
  attempt visit owner_loaded app s =
      if not owner_loaded
      then done (err internal) s
      else if tenant == app.owner_id
      then done (err internal) s
      else elim (find (is_of tenant app) s.subscriptions) [
        | none ↦ begin visit app none s
        | some row ↦ resume visit app row.status row s
      ]

  -- `owner_loaded`: whether the caller loaded the relation `owner` of the app. The controllers do; the loop
  -- over the names of an answer does not.
  unfoldable pub subscribe_app : ℕ → Bool → App → State → Outcome (Option Subscription)
  unfolding attempt
  subscribe_app zero owner_loaded app s = out_of_fuel
  subscribe_app (suc fuel) owner_loaded app s =
      attempt (subscribe_app fuel false) owner_loaded app s
