-- ===== src/KeyManagement/Loops.antt =====
-- The loops that deactivate keys one by one, as one update of the table.
use identity_ghost.Prelude.{
  ℕ, ◌≡◌, refl, sym, ◌∙◌, Bool, true, false, ◌&&◌, not, is_some, ltb, ◌+◌, ◌*◌, none, some,
  Option-cases, inl, inr, Option, List, [], ◌∷◌, arith, update_where, filter, map, Text, ◌==◌,
  includes, All, ==_of_eq, eq_of_==,
}
use identity_ghost.KeyManagement.{
  TenantKey, Table, is_superseded, is_expired, deactivated, deactivate, deactivate_all,
  deactivate_due, deactivate_expired_keys,
}
use identity_ghost.KeyManagement.Rows.{Compatible, IsValid}

abbrev pub ids : List TenantKey → List Text
ids ks = map (λ k. k.id) ks

abbrev pub among : List TenantKey → TenantKey → Bool
among ks k = includes (ids ks) k.id

deactivate-update_where :
    (now : ℕ) (k : TenantKey) (ks t : Table)
    → update_where (among ks) (deactivated now) (deactivate now k.id t)
      ≡ update_where (among (k ∷ ks)) (deactivated now) t
unfolding deactivate
deactivate-update_where now k ks [] = refl
deactivate-update_where now k ks (r ∷ t) = ground (
  arith,
  deactivate-update_where now k ks t,
  eq_of_== r.id k.id,
  eq_of_== k.id r.id,
  ==_of_eq k.id r.id,
  ==_of_eq r.id k.id,
)

update_where_none : (now : ℕ) (t : Table) → t ≡ update_where (among []) (deactivated now) t
update_where_none now [] = refl
update_where_none now (r ∷ t) = ground (arith, update_where_none now t)

-- The loop deactivates exactly the rows whose ids are in the list.
pub deactivate_all-update_where :
    (now : ℕ) (ks t : Table) → deactivate_all now ks t ≡ update_where (among ks) (deactivated now) t
unfolding deactivate_all
deactivate_all-update_where now [] t = update_where_none now t
deactivate_all-update_where now (k ∷ ks) t =
    deactivate_all-update_where now ks (deactivate now k.id t) ∙ deactivate-update_where now k ks t

-- What the cleanup deactivates.
abbrev pub is_due : Option ℕ → ℕ → TenantKey → Bool
is_due seconds now k = is_superseded k && is_expired seconds now k.superseded_at

deactivate_due-filter :
    (seconds : Option ℕ) (now : ℕ) (ks t : Table)
    → deactivate_due seconds now (filter is_superseded ks) t
      ≡ deactivate_all now (filter (is_due seconds now) ks) t
unfolding deactivate_due deactivate_all
deactivate_due-filter seconds now [] t = refl
deactivate_due-filter seconds now (k ∷ ks) t = ground (
  arith,
  deactivate_due-filter seconds now ks t,
  deactivate_due-filter seconds now ks (deactivate now k.id t),
)

not_among :
    (p : TenantKey → Bool) (k : TenantKey) (t : Table)
    → All (Compatible k) t
    → among (filter p t) k ≡ false
not_among p k [] w = refl
not_among p k (r ∷ t) w =
    let other = w.0.ids in
    ground (
      arith,
      not_among p k t w.1,
      λ (h : (r.id == k.id) ≡ true). other (sym (eq_of_== r.id k.id h)),
    )

among-filter_cons :
    (p : TenantKey → Bool) (k : TenantKey) (s t : Table)
    → All (Compatible k) t
    → All (λ r. among (filter p s) r ≡ p r) t
    → All (λ r. among (filter p (k ∷ s)) r ≡ p r) t
among-filter_cons p k s [] w h = tt
among-filter_cons p k s (r ∷ t) w h =
    let other = w.0.ids in
    (
      ground (arith, h.0, λ (e : (k.id == r.id) ≡ true). other (eq_of_== k.id r.id e)),
      among-filter_cons p k s t w.1 h.1,
    )

-- With distinct ids, a row is among the rows that a query found exactly if it passes the query.
pub among-filter :
    (p : TenantKey → Bool) (t : Table) → IsValid t → All (λ r. among (filter p t) r ≡ p r) t
among-filter p [] w = tt
among-filter p (k ∷ t) w = (
  ground (arith, not_among p k t w.0, ==_of_eq k.id k.id refl),
  among-filter_cons p k t t w.0 (among-filter p t w.1),
)

update_where-cong :
    (p q : TenantKey → Bool) (f : TenantKey → TenantKey) (t : Table)
    → All (λ r. p r ≡ q r) t
    → update_where p f t ≡ update_where q f t
update_where-cong p q f [] h = refl
update_where-cong p q f (r ∷ t) h = ground (arith, h.0, update_where-cong p q f t h.1)

-- Superseded at a time that the window has passed, and still active.
abbrev pub is_past_window : Option ℕ → ℕ → TenantKey → Bool
is_past_window none now k = false
is_past_window (some seconds) now k = elim k.superseded_at [
  | none ↦ false
  | some at ↦ not k.is_current && not (is_some k.deactivated_at) && ltb (at + seconds * 1000) now
]

due_past_window :
    (seconds : Option ℕ) (now : ℕ) (k : TenantKey)
    → is_due seconds now k ≡ is_past_window seconds now k
unfolding is_expired
due_past_window none now k = ground arith
due_past_window (some seconds) now k = elim (Option-cases k.superseded_at) [
  | inl never ↦ ground arith
  | inr (at, e) ↦ ground arith
]

same_tests :
    (p q : TenantKey → Bool) (t : Table) → ((k : TenantKey) → p k ≡ q k) → All (λ r. p r ≡ q r) t
same_tests p q [] h = tt
same_tests p q (r ∷ t) h = (h r, same_tests p q t h)

pub by_due :
    (seconds : Option ℕ) (now : ℕ) (t : Table)
    → IsValid t
    → deactivate_expired_keys seconds now t ≡ update_where (is_due seconds now) (deactivated now) t
unfolding deactivate_expired_keys
by_due seconds now t w =
    deactivate_due-filter seconds now t t
    ∙ deactivate_all-update_where now (filter (is_due seconds now) t) t
    ∙ update_where-cong (among (filter (is_due seconds now) t)) (is_due seconds now)
        (deactivated now) t (among-filter (is_due seconds now) t w)

-- On a valid table the cleanup, which updates row by row, is the single update
-- `SET deactivated_at = now WHERE` the key is not current, was superseded at a time that is more than the
-- lifetime of tokens ago, and is not yet deactivated; without a lifetime that is a number it updates nothing.
pub deactivate_expired_keys-update_where :
    (seconds : Option ℕ) (now : ℕ) (t : Table)
    → IsValid t
    → deactivate_expired_keys seconds now t
      ≡ update_where (is_past_window seconds now) (λ k. record k { deactivated_at = some now }) t
deactivate_expired_keys-update_where seconds now t w =
    by_due seconds now t w
    ∙ update_where-cong (is_due seconds now) (is_past_window seconds now) (deactivated now) t (
        same_tests (is_due seconds now) (is_past_window seconds now) t
          (due_past_window seconds now))
