-- ===== src/KeyManagement/Limit.antt =====
-- How many keys of a tenant are active, before and after the limit is enforced.
use identity_ghost.Prelude.{
  ℕ, zero, suc, ◌-◌, ◌≤◌, ◌≡◌, refl, ap, ◌∙◌, Bool, true, false, not, [], ◌∷◌, arith, filter,
  length, update_where, Text, All, All-imp, ==_of_eq, number,
}
use identity_ghost.KeyManagement.{
  TenantKey, Table, take, is_active, insert, oldest_first, deactivated, enforce_max_keys,
}
use identity_ghost.KeyManagement.Loops.{among, deactivate_all-update_where}

-- The number of active keys of a tenant.
abbrev pub active_count : Text → Table → ℕ
active_count tenant t = length (filter (is_active tenant) t)

length-filter-insert :
    (q : TenantKey → Bool) (k : TenantKey) (t : Table)
    → length (filter q (insert k t)) ≡ length (filter q (k ∷ t))
length-filter-insert q k [] = refl
length-filter-insert q k (l ∷ t) = ground (arith, length-filter-insert q k t)

length-filter-oldest_first :
    (q : TenantKey → Bool) (t : Table) → length (filter q (oldest_first t)) ≡ length (filter q t)
unfolding oldest_first
length-filter-oldest_first q [] = refl
length-filter-oldest_first q (k ∷ t) =
    length-filter-insert q k (oldest_first t) ∙ ground (arith, length-filter-oldest_first q t)

length-insert : (k : TenantKey) (t : Table) → length (insert k t) ≡ suc (length t)
length-insert k [] = refl
length-insert k (l ∷ t) = ground (arith, length-insert k t)

pub length-oldest_first : (t : Table) → length (oldest_first t) ≡ length t
unfolding oldest_first
length-oldest_first [] = refl
length-oldest_first (k ∷ t) = length-insert k (oldest_first t) ∙ ap suc (length-oldest_first t)

-- A filter that drops a prefix leaves no more than the rest.
length-filter_dropped :
    (q : TenantKey → Bool) (n : ℕ) (t : Table)
    → All (λ r. q r ≡ false) (take n t)
    → length (filter q t) ≤ length t - n
length-filter_dropped q n [] h = omega arith
length-filter_dropped q zero (k ∷ t) h = ground (arith, length-filter_dropped q 0 t tt)
length-filter_dropped q (suc n) (k ∷ t) h = ground (arith, h.0, length-filter_dropped q n t h.1)

among_self : (t : Table) → All (λ r. among t r ≡ true) t
among_self [] = tt
among_self (k ∷ t) = (
  ground (arith, ==_of_eq k.id k.id refl),
  All-imp (λ r. among t r ≡ true) _ t (λ r h. ground (arith, h)) (among_self t),
)

filter-deactivated :
    (tenant : Text) (now : ℕ) (ks t : Table)
    → filter (is_active tenant) (update_where (among ks) (deactivated now) t)
      ≡ filter (λ r. not (among ks r)) (filter (is_active tenant) t)
filter-deactivated tenant now ks [] = refl
filter-deactivated tenant now ks (r ∷ t) = ground (arith, filter-deactivated tenant now ks t)

-- Enforcing the limit leaves at most as many active keys as it allows.
pub enforce_max_keys-bound :
    (m : ℕ) (tenant : Text) (now : ℕ) (t : Table)
    → active_count tenant (enforce_max_keys (number m) tenant now t) ≤ m
unfolding enforce_max_keys
enforce_max_keys-bound m tenant now t =
    let active = filter (is_active tenant) t in
    let keys = oldest_first active in
    let old = take (length keys - m) keys in
    let q = λ (r : TenantKey). not (among old r) in
    let gone =
      All-imp (λ r. among old r ≡ true) (λ r. q r ≡ false) old (λ r h. ap not h) (among_self old) in
    omega (
      arith,
      ap (λ s. active_count tenant s) (deactivate_all-update_where now old t),
      ap (λ s. length s) (filter-deactivated tenant now old t),
      length-filter-oldest_first q active,
      length-oldest_first active,
      length-filter_dropped q (length keys - m) keys gone,
    )
