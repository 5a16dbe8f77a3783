-- ===== src/KeyManagement/Newest.antt =====
-- Which active keys the limit deactivates: the oldest, never the newest.
use identity_ghost.Prelude.{
  ℕ, zero, suc, ◌-◌, ◌≤◌, ◌<◌, ◌≡◌, ◌≢◌, refl, ap, ◌∙◌, Bool, true, false, none, some, List, [],
  ◌∷◌, ◌++◌, Text, ◌==◌, filter, find, length, length-append, update_where, arith, Bool-cases, inl,
  inr, All, leb, eq_of_==,
}
use identity_ghost.KeyManagement.{TenantKey, Table, take, is_active, insert, oldest_first}
use identity_ghost.KeyManagement.Loops.{among}

module _ {ℓ} {A : Type ℓ} (p : A → Bool) where
  pub find-none_of_All : (t : List A) → All (λ r. p r ≡ false) t → find p t ≡ none
  find-none_of_All [] h = refl
  find-none_of_All (r ∷ t) h = ground (arith, h.0, find-none_of_All t h.1)

  -- An update that makes no row pass leaves a row found that it does not touch.
  pub find-update_where_kept :
      (q : A → Bool) (f : A → A) (t : List A) {a : A}
      → ((x : A) → p x ≡ false → p (f x) ≡ false)
      → find p t ≡ some a
      → q a ≡ false
      → find p (update_where q f t) ≡ some a
  find-update_where_kept q f [] h found other = cc
  find-update_where_kept q f (r ∷ t) {a} h found other =
      ground (arith, h r, find-update_where_kept q f t {a = a} h)

module _ {κ} (P : TenantKey → Type κ) where
  All-insert : (k : TenantKey) (t : Table) → P k → All P t → All P (insert k t)
  All-insert k [] hk ht = (hk, tt)
  All-insert k (l ∷ t) hk ht = elim (Bool-cases (leb k.key_version l.key_version)) [
    | inl below ↦ rw below (hk, ht)
    | inr above ↦ rw above (ht.0, All-insert k t hk ht.1)
  ]

  All-oldest_first : (t : Table) → All P t → All P (oldest_first t)
  unfolding oldest_first
  All-oldest_first [] h = tt
  All-oldest_first (k ∷ t) h = All-insert k (oldest_first t) h.0 (All-oldest_first t h.1)

  All-take : (n : ℕ) (t : Table) → All P t → All P (take n t)
  All-take zero t h = tt
  All-take (suc n) [] h = tt
  All-take (suc n) (k ∷ t) h = (h.0, All-take n t h.1)

  -- A filter whose test gives what is needed of its rows.
  All-filter :
      {Q : TenantKey → Type κ} (p : TenantKey → Bool) (t : Table)
      → ((r : TenantKey) → p r ≡ true → Q r → P r)
      → All Q t
      → All P (filter p t)
  All-filter p [] f h = tt
  All-filter p (k ∷ t) f h = elim (Bool-cases (p k)) [
    | inl yes_p ↦ rw yes_p (f k yes_p h.0, All-filter p t f h.1)
    | inr no_p ↦ rw no_p (All-filter p t f h.1)
  ]

insert-append_one :
    (k l : TenantKey) (t : Table)
    → k.key_version ≤ l.key_version
    → insert k (t ++ l ∷ []) ≡ insert k t ++ l ∷ []
insert-append_one k l [] h = ground arith
insert-append_one k l (r ∷ t) h = ground (arith, insert-append_one k l t h)

-- A key whose version is above all others comes last.
oldest_first-append_one :
    (l : TenantKey) (t : Table)
    → All (λ k. k.key_version ≤ l.key_version) t
    → oldest_first (t ++ l ∷ []) ≡ oldest_first t ++ l ∷ []
unfolding oldest_first
oldest_first-append_one l [] h = refl
oldest_first-append_one l (k ∷ t) h =
    ap (λ s. insert k s) (oldest_first-append_one l t h.1)
    ∙ insert-append_one k l (oldest_first t) h.0

take-append : (n : ℕ) (t u : Table) → n ≤ length t → take n (t ++ u) ≡ take n t
take-append zero t u h = refl
take-append (suc n) [] u h = absurd (omega arith)
take-append (suc n) (k ∷ t) u h = ap (λ s. k ∷ s) (take-append n t u (omega arith))

among-none : (l : TenantKey) (t : Table) → All (λ k. k.id ≢ l.id) t → among t l ≡ false
among-none l [] h = refl
among-none l (k ∷ t) h =
    let other = h.0 in
    ground (arith, among-none l t h.1, λ (e : (k.id == l.id) ≡ true). other (eq_of_== k.id l.id e))

filter-append_one :
    (p : TenantKey → Bool) (l : TenantKey) (t : Table)
    → p l ≡ true
    → filter p (t ++ l ∷ []) ≡ filter p t ++ l ∷ []
filter-append_one p l [] h = rw h
filter-append_one p l (k ∷ t) h = ground (arith, filter-append_one p l t h)

-- The newest active key is not among those that the limit, if it is not zero, deactivates.
pub newest_stays :
    (m : ℕ) (tenant : Text) (l : TenantKey) (t : Table)
    → 0 < m
    → is_active tenant l ≡ true
    → All (λ k. k.id ≢ l.id) t
    → All (λ k. k.tenant_id ≡ tenant → k.key_version ≤ l.key_version) t
    → let keys = oldest_first (filter (is_active tenant) (t ++ l ∷ [])) in
      among (take (length keys - m) keys) l ≡ false
newest_stays m tenant l t pos active others below =
    let older = filter (is_active tenant) t in
    let sorted = oldest_first older in
    let e : oldest_first (filter (is_active tenant) (t ++ l ∷ [])) ≡ sorted ++ l ∷ [] =
      ap (λ s. oldest_first s) (filter-append_one (is_active tenant) l t active)
      ∙ oldest_first-append_one l older (
          All-filter (λ k. k.key_version ≤ l.key_version) (is_active tenant) t
            (λ r a h. h (eq_of_== r.tenant_id tenant (ground arith))) below) in
    let n = length (sorted ++ l ∷ []) - m in
    rw e (
      ap (λ s. among s l)
        (take-append n sorted (l ∷ []) (omega (arith, length-append {0} sorted (l ∷ []))))
      ∙ among-none l (take n sorted) (
          All-take (λ k. k.id ≢ l.id) n sorted
            (All-oldest_first (λ k. k.id ≢ l.id) older
              (All-filter (λ k. k.id ≢ l.id) (is_active tenant) t (λ r a h. h) others))))
