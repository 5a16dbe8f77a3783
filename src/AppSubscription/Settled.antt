-- ===== src/AppSubscription/Settled.antt =====
-- What a chain of subscriptions leaves behind.
use identity_ghost.Prelude.{
  ℕ, zero, suc, Bool, false, ◌≡◌, refl, ap, subst, true, ◌&&◌, Option, none, some, List, [], ◌∷◌,
  find, Text, ◌==◌, includes, Bool-cases, Option-cases, inl, inr,
}
use identity_ghost.Errors.{Result, ok, err, internal, not_found}
use identity_ghost.Directory.{
  App, Subscription, SubscriptionStatus, success, pending, canceled, failed,
}
use identity_ghost.AppSubscription.{
  State, World, Reply, refused, names, Outcome, out_of_fuel, done, and_then, is_of, put, find_named,
  has_endpoint, visit_all, after_reply, counted, call_endpoint, new_row, begun, succeeded,
  with_error, settle, begin, without, resume, attempt, subscribe_app,
}
use identity_ghost.AppSubscription.Pending.{
  pends, Within, NoNew, settle_row, pends-put, pends-remove_row,
}

abbrev rows : Outcome (Option Subscription) → List Subscription
rows out_of_fuel = []
rows (done r s) = s.subscriptions

module _ (world : World) (tenant : Text) where
  -- If it returns, no row is pending that was not pending before.
  pub data Settles {ℓ} {A : Type ℓ} (s : State) : Outcome A → Type ℓ where
    unknown : Settles s out_of_fuel
    settles :
        (r : Result A) (s' : State) → NoNew s.subscriptions s'.subscriptions → Settles s (done r s')

  abbrev pub AllSettle : (App → State → Outcome (Option Subscription)) → Type 0
  AllSettle visit = (app : App) (s : State) → Settles s (visit app s)

  chain :
      (s0 : State) (o : Outcome (Option Subscription)) (next : State → Outcome (Unit {0}))
      → Settles s0 o
      → ((s : State) → Settles s (next s))
      → Settles s0 (and_then o next)
  chain s0 o next unknown go = unknown
  chain s0 o next (settles (ok a) s le) go = grow (next s) (go s)
    where
      grow : (o' : Outcome (Unit {0})) → Settles s o' → Settles s0 o'
      grow o' unknown = unknown
      grow o' (settles r s' le') = settles r s' (λ id h. le id (le' id h))
  chain s0 o next (settles (err e) s le) go = settles (err e) s le

  visit_all-Settles :
      (visit : App → State → Outcome (Option Subscription)) (ns : List Text) (s : State)
      → AllSettle visit
      → Settles s (visit_all world tenant visit ns s)
  unfolding visit_all
  visit_all-Settles visit [] s all = settles (ok tt) s (λ id h. h)
  visit_all-Settles visit (n ∷ ns) s all = elim (Option-cases (find_named world.apps n)) [
    | inl gone ↦ rw (gone, visit_all) (settles (err not_found) s (λ id h. h))
    | inr (app, found) ↦
        rw (found, visit_all)
          (chain s (visit app s) (visit_all world tenant visit ns) (all app s)
            (λ t. visit_all-Settles visit ns t all))
  ]

  call_endpoint-Settles :
      (visit : App → State → Outcome (Option Subscription)) (app : App) (s : State)
      → AllSettle visit
      → Settles s (call_endpoint world tenant visit true app s)
  unfolding call_endpoint
  call_endpoint-Settles visit app s all =
      elim (Bool-cases (app.onboarding_enabled && has_endpoint app)) [
        | inr skipped ↦ rw skipped (settles (ok tt) s (λ id h. h))
        | inl called ↦ rw called (answered (world.reply s.calls app tenant))
      ]
    where
      moved : (o : Outcome (Unit {0})) → Settles (counted world tenant s) o → Settles s o
      moved o unknown = unknown
      moved o (settles r s' le) = settles r s' le

      answered : (a : Reply) → Settles s (after_reply world tenant visit a (counted world tenant s))
      answered refused = settles (err internal) (counted world tenant s) (λ id h. h)
      answered (names ns) =
          moved (visit_all world tenant visit ns (counted world tenant s))
            (visit_all-Settles visit ns (counted world tenant s) all)

  begin-Settles :
      (visit : App → State → Outcome (Option Subscription)) (app : App)
      (existing : Option Subscription) (s : State)
      → AllSettle visit
      → Settles s (begin world tenant visit app existing s)
  unfolding begin
  begin-Settles visit app existing s all = elim (Bool-cases (includes s.visited app.id)) [
    | inl seen ↦ rw seen (settles (ok existing) s (λ id h. h))
    | inr new_ ↦
        let b = begun world tenant app s in
        rw new_ (
          settled (call_endpoint world tenant visit true app b)
            (call_endpoint-Settles visit app b all))
  ]
    where
      row : Subscription
      row = new_row world tenant app s

      within :
          (s' : State)
          → NoNew (put row s.subscriptions) s'.subscriptions
          → Within s.subscriptions row.id s'.subscriptions
      within s' le id h = pends-put row s.subscriptions id (le id h)

      settled :
          (o : Outcome (Unit {0}))
          → Settles (begun world tenant app s) o
          → Settles s (settle world tenant row o)
      settled o unknown = unknown
      settled o (settles (ok x) s' le) =
          settles (ok (some (succeeded world tenant row)))
            (record s' { subscriptions = put (succeeded world tenant row) s'.subscriptions })
            (settle_row (succeeded world tenant row) s.subscriptions s'.subscriptions refl
              (within s' le))
      settled o (settles (err e) s' le) =
          settles (err e)
            (record s' { subscriptions = put (with_error world tenant e row) s'.subscriptions })
            (settle_row (with_error world tenant e row) s.subscriptions s'.subscriptions refl
              (within s' le))

  attempt-Settles :
      (visit : App → State → Outcome (Option Subscription)) (owner_loaded : Bool) (app : App)
      (s : State)
      → AllSettle visit
      → Settles s (attempt world tenant visit owner_loaded app s)
  unfolding attempt resume
  attempt-Settles visit false app s all = settles (err internal) s (λ id h. h)
  attempt-Settles visit true app s all = elim (Bool-cases (tenant == app.owner_id)) [
    | inl own ↦ rw own (settles (err internal) s (λ id h. h))
    | inr other ↦ elim (Option-cases (find (is_of tenant app) s.subscriptions)) [
      | inl none_yet ↦ rw (other, none_yet, attempt) (begin-Settles visit app none s all)
      | inr (row, found) ↦ rw (other, found, attempt) (resumed row row.status)
    ]
  ]
    where
      moved :
          (row : Subscription) (o : Outcome (Option Subscription))
          → Settles (without world tenant row s) o
          → Settles s o
      moved row o unknown = unknown
      moved row o (settles r s' le) =
          settles r s' (λ id h. pends-remove_row row.id s.subscriptions id (le id h))

      resumed :
          (row : Subscription) (st : SubscriptionStatus)
          → Settles s (resume world tenant visit app st row s)
      resumed row pending = settles (err internal) s (λ id h. h)
      resumed row success = settles (ok (some row)) s (λ id h. h)
      resumed row canceled = settles (ok (some row)) s (λ id h. h)
      resumed row failed =
          moved row (begin world tenant visit app (some row) (without world tenant row s))
            (begin-Settles visit app (some row) (without world tenant row s) all)

  subscribe_app-Settles :
      (fuel : ℕ) (owner_loaded : Bool) → AllSettle (subscribe_app world tenant fuel owner_loaded)
  unfolding subscribe_app
  subscribe_app-Settles zero owner_loaded app s = unknown
  subscribe_app-Settles (suc fuel) owner_loaded app s =
      attempt-Settles (subscribe_app world tenant fuel false) owner_loaded app s
        (subscribe_app-Settles fuel false)

  -- However a call of subscribeApp ends, by a return or an exception, no row is left pending that was not
  -- pending before.
  pub subscribe_app-settled :
      (fuel : ℕ) (owner_loaded : Bool) (app : App) (s s' : State) {r : Result (Option Subscription)}
      → subscribe_app world tenant fuel owner_loaded app s ≡ done r s'
      → (id : Text) → pends s'.subscriptions id ≡ true
      → pends s.subscriptions id ≡ true
  subscribe_app-settled fuel owner_loaded app s s' {r} h =
      left_over (subscribe_app world tenant fuel owner_loaded app s)
        (subscribe_app-Settles fuel owner_loaded app s) h
    where
      left_over :
          (o : Outcome (Option Subscription))
          → Settles s o
          → o ≡ done r s'
          → NoNew s.subscriptions s'.subscriptions
      left_over o unknown e = cc
      left_over o (settles r' t le) e =
          subst (λ (x : List Subscription). NoNew s.subscriptions x) (ap (λ p. rows p) e) le
