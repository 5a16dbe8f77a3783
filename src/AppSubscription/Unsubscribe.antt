-- ===== src/AppSubscription/Unsubscribe.antt =====
-- unsubscribe of srv/src/services/app-subscription.service.ts. The offboarding call has the shape of
-- the onboarding call: `call_endpoint`, where the recursive call unsubscribes.
pub mod Offboarding
use identity_ghost.Prelude.{
  ℕ, zero, suc, Bool, true, false, ◌&&◌, not, Option, none, some, List, ◌∷◌, if◌then◌else◌, filter,
  find, map, Text, ◌==◌, is_text, includes,
}
use identity_ghost.Errors.{ok, err}
use identity_ghost.Directory.{
  App, Role, UserRole, Subscription, SubscriptionStatus, success, pending, canceled, failed,
}
use identity_ghost.AppSubscription.{
  State, World, Outcome, out_of_fuel, done, is_of, put, remove_row, call_endpoint, without,
}

module _ (world : World) (tenant : Text) where
  abbrev pub role_ids : App → List Text
  role_ids app = map (λ r. r.id) (filter (λ r. is_text r.app_id app.id) world.roles)

  -- Whether an assignment in the tenant is to a role of the app.
  abbrev pub is_assigned : App → UserRole → Bool
  is_assigned app u = u.tenant_id == tenant && includes (role_ids app) u.role_id

  unfoldable pub drop_user_roles : App → List UserRole → List UserRole
  drop_user_roles app t = filter (λ u. not (is_assigned app u)) t

  -- The end of the `try` and its `catch`; the status of the row stays.
  abbrev pub depart : App → Subscription → Outcome (Unit {0}) → Outcome Bool
  depart app row out_of_fuel = out_of_fuel
  depart app row (done (ok _) s) =
      done (ok true)
        (without world tenant row (record s { user_roles = drop_user_roles app s.user_roles }))
  depart app row (done (err e) s) = done (err e) (record s {
    subscriptions = put (record row { message = some (world.describe e) }) s.subscriptions;
  })

  abbrev pub visiting : App → State → State
  visiting app s = record s { visited = app.id ∷ s.visited }

  unfoldable pub offboard :
      (App → State → Outcome Bool) → Bool → App → Subscription → State → Outcome Bool
  unfolding call_endpoint put remove_row drop_user_roles
  offboard visit owner_loaded app row s =
      if includes s.visited app.id
      then done (ok false) s
      else depart app row (call_endpoint world tenant visit owner_loaded app (visiting app s))

  unfoldable pub leave :
      (App → State → Outcome Bool)
      → Bool
      → App
      → SubscriptionStatus
      → Subscription
      → State
      → Outcome Bool
  unfolding offboard remove_row
  leave visit owner_loaded app failed row s = done (ok true) (without world tenant row s)
  leave visit owner_loaded app pending row s = done (ok false) s
  leave visit owner_loaded app success row s = offboard visit owner_loaded app row s
  leave visit owner_loaded app canceled row s = offboard visit owner_loaded app row s

  unfoldable pub attempt_leave : (App → State → Outcome Bool) → Bool → App → State → Outcome Bool
  unfolding leave
  attempt_leave visit owner_loaded app s = elim (find (is_of tenant app) s.subscriptions) [
    | none ↦ done (ok true) s
    | some row ↦ leave visit owner_loaded app row.status row s
  ]

  unfoldable pub unsubscribe : ℕ → Bool → App → State → Outcome Bool
  unfolding attempt_leave
  unsubscribe zero owner_loaded app s = out_of_fuel
  unsubscribe (suc fuel) owner_loaded app s =
      attempt_leave (unsubscribe fuel false) owner_loaded app s
