-- ===== src/AppSubscription/Unsubscribe/Offboarding.antt =====
-- What is left of a subscription when unsubscribing is through.
use identity_ghost.Prelude.{
  ℕ, zero, suc, ◌≡◌, ◌≢◌, refl, ap, subst, Bool, true, false, some, List, [], ◌∷◌, arith, find, All,
  Text, ◌==◌, ==_of_eq, includes, Bool-cases, Option-cases, inl, inr,
}
use identity_ghost.Errors.{Result, ok, err}
use identity_ghost.Directory.{
  App, UserRole, Subscription, SubscriptionStatus, success, pending, canceled, failed,
}
use identity_ghost.AppSubscription.{
  State, World, Outcome, out_of_fuel, done, is_of, remove_row, call_endpoint, without,
}
use identity_ghost.AppSubscription.Terminates.{
  Ends, ends, AllEnd, returned, call_endpoint-Ends, call_endpoint-unloaded,
}
use identity_ghost.AppSubscription.Unsubscribe.{
  is_assigned, drop_user_roles, depart, visiting, offboard, leave, attempt_leave, unsubscribe,
}

remove_row-gone : (id : Text) (t : List Subscription) → All (λ r. r.id ≢ id) (remove_row id t)
unfolding remove_row
remove_row-gone id [] = tt
remove_row-gone id (r ∷ t) = elim (Bool-cases (r.id == id)) [
  | inl here ↦ rw here (remove_row-gone id t)
  | inr other ↦ rw other (λ e. ground (arith, ==_of_eq r.id id e), remove_row-gone id t)
]

module _ (world : World) (tenant : Text) where
  drop_user_roles-gone :
      (app : App) (t : List UserRole)
      → All (λ u. is_assigned world tenant app u ≡ false) (drop_user_roles world tenant app t)
  unfolding drop_user_roles
  drop_user_roles-gone app [] = tt
  drop_user_roles-gone app (u ∷ t) = elim (Bool-cases (is_assigned world tenant app u)) [
    | inl gone ↦ rw gone (drop_user_roles-gone app t)
    | inr kept ↦ rw kept (kept, drop_user_roles-gone app t)
  ]

  depart-Ends :
      (app : App) (row : Subscription) (o : Outcome (Unit {0}))
      → Ends o
      → Ends (depart world tenant app row o)
  depart-Ends app row o (ends (ok x) s') = ends _ _
  depart-Ends app row o (ends (err e) s') = ends _ _

  -- From the endings of the call of the endpoint, to that of the attempt.
  attempt_leave-Ends :
      (visit : App → State → Outcome Bool) (owner_loaded : Bool) (app : App) (s : State)
      → ((t : State) → Ends (call_endpoint world tenant visit owner_loaded app t))
      → Ends (attempt_leave world tenant visit owner_loaded app s)
  unfolding attempt_leave leave offboard
  attempt_leave-Ends visit owner_loaded app s called =
      elim (Option-cases (find (is_of tenant app) s.subscriptions)) [
        | inl none_there ↦ rw (none_there, attempt_leave) (ends (ok true) s)
        | inr (row, found) ↦ rw (found, attempt_leave) (left_with row row.status)
      ]
    where
      offboarded : (row : Subscription) → Ends (offboard world tenant visit owner_loaded app row s)
      offboarded row = elim (Bool-cases (includes s.visited app.id)) [
        | inl seen ↦ rw (seen, offboard) (ends (ok false) s)
        | inr new_ ↦
            rw (new_, offboard) (depart-Ends app row _ (called (visiting world tenant app s)))
      ]

      left_with :
          (row : Subscription) (st : SubscriptionStatus)
          → Ends (leave world tenant visit owner_loaded app st row s)
      left_with row failed = ends (ok true) (without world tenant row s)
      left_with row pending = ends (ok false) s
      left_with row success = offboarded row
      left_with row canceled = offboarded row

  unloaded-AllEnd : (fuel : ℕ) → AllEnd (unsubscribe world tenant (suc fuel) false)
  unfolding unsubscribe
  unloaded-AllEnd fuel app s =
      attempt_leave-Ends (unsubscribe world tenant fuel false) false app s
        (λ t. call_endpoint-unloaded world tenant (unsubscribe world tenant fuel false) app t)

  -- Unsubscribing returns or throws, whatever the endpoints answer.
  pub unsubscribe-returns :
      (fuel : ℕ) (app : App) (s : State)
      → (r : Result Bool) × (s' : State) × (unsubscribe world tenant (suc (suc fuel)) true app s
          ≡ done r s')
  unfolding unsubscribe
  unsubscribe-returns fuel app s = returned (unsubscribe world tenant (suc (suc fuel)) true app s) (
      attempt_leave-Ends (unsubscribe world tenant (suc fuel) false) true app s (λ t.
        call_endpoint-Ends world tenant (unsubscribe world tenant (suc fuel) false) app t
          (unloaded-AllEnd fuel)))

  -- Nothing of the subscription is left.
  pub record IsCleared (app : App) (row : Subscription) (s : State) : Type 0 where
    pub no_row : All (λ r. r.id ≢ row.id) s.subscriptions
    pub no_roles : All (λ u. is_assigned world tenant app u ≡ false) s.user_roles

  state_or : State → Outcome Bool → State
  state_or d out_of_fuel = d
  state_or d (done r s) = s

  depart-IsCleared :
      (app : App) (row : Subscription) (o : Outcome (Unit {0})) (s' : State)
      → depart world tenant app row o ≡ done (ok true) s'
      → IsCleared app row s'
  unfolding state_or
  depart-IsCleared app row out_of_fuel s' h = cc
  depart-IsCleared app row (done (err e) s) s' h = cc
  depart-IsCleared app row (done (ok x) s) s' h =
      subst (IsCleared app row) (ap (state_or s) h) (record {
        no_row = remove_row-gone row.id s.subscriptions;
        no_roles = drop_user_roles-gone app s.user_roles;
      })

  offboard-IsCleared :
      (visit : App → State → Outcome Bool) (owner_loaded : Bool) (app : App) (row : Subscription)
      (s s' : State)
      → offboard world tenant visit owner_loaded app row s ≡ done (ok true) s'
      → IsCleared app row s'
  unfolding offboard
  offboard-IsCleared visit owner_loaded app row s s' h =
      elim (Bool-cases (includes s.visited app.id)) [
        | inl seen ↦ let bad = rw seen at h in cc
        | inr new_ ↦ depart-IsCleared app row _ s' (rw new_ at h)
      ]

  -- When a tenant has unsubscribed from an app that it had a subscription to, other than a failed one, the
  -- row is gone, and no user of the tenant is assigned a role of the app.
  pub unsubscribe-IsCleared :
      (fuel : ℕ) (owner_loaded : Bool) (app : App) (row : Subscription) (s s' : State)
      → find (is_of tenant app) s.subscriptions ≡ some row
      → row.status ≢ failed
      → unsubscribe world tenant fuel owner_loaded app s ≡ done (ok true) s'
      → IsCleared app row s'
  unfolding unsubscribe attempt_leave leave
  unsubscribe-IsCleared zero owner_loaded app row s s' found live h = cc
  unsubscribe-IsCleared (suc fuel) owner_loaded app row s s' found live h =
      ended row.status live (rw (found, attempt_leave) at h)
    where
      ended :
          (st : SubscriptionStatus)
          → st ≢ failed
          → leave world tenant (unsubscribe world tenant fuel false) owner_loaded app st row s
            ≡ done (ok true) s'
          → IsCleared app row s'
      ended failed live e = elim (live refl) [ ]
      ended pending live e = cc
      ended success live e =
          offboard-IsCleared (unsubscribe world tenant fuel false) owner_loaded app row s s' e
      ended canceled live e =
          offboard-IsCleared (unsubscribe world tenant fuel false) owner_loaded app row s s' e
