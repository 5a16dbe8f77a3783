-- ===== src/AppSubscription/Terminates.antt =====
-- A chain of subscriptions ends.
use identity_ghost.Prelude.{
  ℕ, suc, ◌≡◌, refl, Bool, true, false, ◌&&◌, Option, none, some, List, [], ◌∷◌, find, Text, ◌==◌,
  includes, Bool-cases, Option-cases, inl, inr,
}
use identity_ghost.Errors.{Result, ok, err, internal, not_found}
use identity_ghost.Directory.{
  App, Subscription, SubscriptionStatus, success, pending, canceled, failed,
}
use identity_ghost.AppSubscription.{
  State, World, Reply, refused, names, Outcome, done, and_then, is_of, find_named, has_endpoint,
  visit_all, after_reply, counted, call_endpoint, new_row, begun, settle, begin, without, resume,
  attempt, subscribe_app,
}

pub data Ends {ℓ} {A : Type ℓ} : Outcome A → Type ℓ where
  ends : (r : Result A) (s : State) → Ends (done r s)

abbrev pub AllEnd {ℓ} : {A : Type ℓ} → (App → State → Outcome A) → Type ℓ
AllEnd visit = (app : App) (s : State) → Ends (visit app s)

chain {ℓ} :
    {A : Type ℓ} (o : Outcome A) (next : State → Outcome (Unit {0}))
    → Ends o
    → ((s : State) → Ends (next s))
    → Ends (and_then o next)
chain o next (ends (ok a) s) go = go s
chain o next (ends (err e) s) go = ends (err e) s

pub returned {ℓ} :
    {A : Type ℓ} (o : Outcome A) → Ends o → (r : Result A) × (s : State) × (o ≡ done r s)
returned o (ends r s) = (r, s, refl)

module _ (world : World) (tenant : Text) where
  visit_all-Ends {ℓ} :
      {A : Type ℓ} (visit : App → State → Outcome A) (ns : List Text) (s : State)
      → AllEnd visit
      → Ends (visit_all world tenant visit ns s)
  unfolding visit_all
  visit_all-Ends visit [] s all = ends (ok tt) s
  visit_all-Ends visit (n ∷ ns) s all = elim (Option-cases (find_named world.apps n)) [
    | inl gone ↦ rw (gone, visit_all) (ends (err not_found) s)
    | inr (app, found) ↦
        rw (found, visit_all)
          (chain (visit app s) (visit_all world tenant visit ns) (all app s)
            (λ t. visit_all-Ends visit ns t all))
  ]

  pub call_endpoint-Ends {ℓ} :
      {A : Type ℓ} (visit : App → State → Outcome A) (app : App) (s : State)
      → AllEnd visit
      → Ends (call_endpoint world tenant visit true app s)
  unfolding call_endpoint
  call_endpoint-Ends visit app s all =
      elim (Bool-cases (app.onboarding_enabled && has_endpoint app)) [
        | inr skipped ↦ rw skipped (ends (ok tt) s)
        | inl called ↦ rw called (answered (world.reply s.calls app tenant))
      ]
    where
      answered : (a : Reply) → Ends (after_reply world tenant visit a (counted world tenant s))
      answered refused = ends (err internal) (counted world tenant s)
      answered (names ns) = visit_all-Ends visit ns (counted world tenant s) all

  -- Without its owner an app's endpoint is not called, so nothing recurs.
  pub call_endpoint-unloaded {ℓ} :
      {A : Type ℓ} (visit : App → State → Outcome A) (app : App) (s : State)
      → Ends (call_endpoint world tenant visit false app s)
  unfolding call_endpoint
  call_endpoint-unloaded visit app s =
      elim (Bool-cases (app.onboarding_enabled && has_endpoint app)) [
        | inr skipped ↦ rw skipped (ends (ok tt) s)
        | inl called ↦ rw called (ends (err internal) s)
      ]

  begin-Ends :
      (visit : App → State → Outcome (Option Subscription)) (app : App)
      (existing : Option Subscription) (s : State)
      → AllEnd visit
      → Ends (begin world tenant visit app existing s)
  unfolding begin
  begin-Ends visit app existing s all = elim (Bool-cases (includes s.visited app.id)) [
    | inl seen ↦ rw seen (ends (ok existing) s)
    | inr new_ ↦
        let b = begun world tenant app s in
        rw new_ (
          settled (call_endpoint world tenant visit true app b)
            (call_endpoint-Ends visit app b all))
  ]
    where
      settled :
          (o : Outcome (Unit {0}))
          → Ends o
          → Ends (settle world tenant (new_row world tenant app s) o)
      settled o (ends (ok x) s') = ends _ _
      settled o (ends (err e) s') = ends _ _

  attempt-Ends :
      (visit : App → State → Outcome (Option Subscription)) (owner_loaded : Bool) (app : App)
      (s : State)
      → AllEnd visit
      → Ends (attempt world tenant visit owner_loaded app s)
  unfolding attempt resume
  attempt-Ends visit false app s all = ends (err internal) s
  attempt-Ends visit true app s all = elim (Bool-cases (tenant == app.owner_id)) [
    | inl own ↦ rw own (ends (err internal) s)
    | inr other ↦ elim (Option-cases (find (is_of tenant app) s.subscriptions)) [
      | inl none_yet ↦ rw (other, none_yet, attempt) (begin-Ends visit app none s all)
      | inr (row, found) ↦ rw (other, found, attempt) (resumed row row.status)
    ]
  ]
    where
      resumed :
          (row : Subscription) (st : SubscriptionStatus)
          → Ends (resume world tenant visit app st row s)
      resumed row pending = ends (err internal) s
      resumed row success = ends (ok (some row)) s
      resumed row canceled = ends (ok (some row)) s
      resumed row failed = begin-Ends visit app (some row) (without world tenant row s) all

  unloaded-AllEnd : (fuel : ℕ) → AllEnd (subscribe_app world tenant (suc fuel) false)
  unfolding subscribe_app attempt
  unloaded-AllEnd fuel app s = ends (err internal) s

  -- For every app, every state and whatever the endpoints answer, subscribing returns or throws: two
  -- levels of the recursion are enough, as a further app is loaded without its owner and recurs no more.
  pub subscribe_app-returns :
      (fuel : ℕ) (owner_loaded : Bool) (app : App) (s : State)
      → (r : Result (Option Subscription)) × (s' : State) × (subscribe_app world tenant
            (suc (suc fuel))
            owner_loaded
            app
            s
          ≡ done r s')
  unfolding subscribe_app
  subscribe_app-returns fuel owner_loaded app s =
      returned (subscribe_app world tenant (suc (suc fuel)) owner_loaded app s) (
        attempt-Ends (subscribe_app world tenant (suc fuel) false) owner_loaded app s
          (unloaded-AllEnd fuel))
