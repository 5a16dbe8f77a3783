-- ===== src/TenantBits/Store.antt =====
-- The table as a map from slots to values.
use identity_ghost.Prelude.{
  ◌≡◌, ◌≢◌, ◌⊎◌, refl, sym, ap, ◌∙◌, subst, Bool, true, false, ◌||◌, Option, none, some, [], ◌∷◌,
  ◌++◌, arith, if◌then◌else◌, filter, find, update_where, any, Text, ◌==◌, eq_of_==, ==_of_eq,
  Bool-cases, inl, inr, All, find-All, Pairwise,
}
use identity_ghost.TenantBits.{Slot, TenantBits, Table, same_slot, is_at, delete_key, get_key_value}

-- What the component promises: a map that forgets the rows, their ids and their order.
abbrev pub Map : Type 0
Map = Slot → Option Text

abbrev pub put : Slot → Option Text → Map → Map
put s v m q = if same_slot s q then v else m q

abbrev pub contents : Table → Map
contents t s = get_key_value s t

-- Ids are unique.
abbrev pub IsValid : Table → Type 0
IsValid = Pairwise (λ r s. r.id ≢ s.id)

pub eq_of_same_slot : (s q : Slot) → same_slot s q ≡ true → q ≡ s
eq_of_same_slot s q h = ground (
  arith,
  eq_of_== q.tenant_id s.tenant_id,
  eq_of_== q.owner_tenant_id s.owner_tenant_id,
  eq_of_== q.key s.key,
)

pub same_slot_refl : (s : Slot) → same_slot s s ≡ true
same_slot_refl s = ground (
  arith,
  ==_of_eq s.tenant_id s.tenant_id refl,
  ==_of_eq s.owner_tenant_id s.owner_tenant_id refl,
  ==_of_eq s.key s.key refl,
)

same_slot_comm : (s q : Slot) → same_slot s q ≡ same_slot q s
same_slot_comm s q = elim (Bool-cases (same_slot s q)) [
  | inl same ↦ rw (eq_of_same_slot s q same) refl
  | inr other ↦ elim (Bool-cases (same_slot q s)) [
    | inl same ↦ rw (eq_of_same_slot q s same) refl
    | inr other' ↦ other ∙ sym other'
  ]
]

module _ (row : TenantBits) where
  pub contents-append_one :
      (t : Table)
      → find (is_at row.slot) t ≡ none
      → (q : Slot) → contents (t ++ row ∷ []) q ≡ put row.slot (some row.value) (contents t) q
  unfolding get_key_value
  contents-append_one [] h q = ground (arith, same_slot_comm row.slot q)
  contents-append_one (r ∷ t) h q = elim (Bool-cases (is_at q r)) [
    | inr later ↦ ground (arith, contents-append_one t (ground arith) q)
    | inl here ↦
        let e = eq_of_same_slot q r.slot here in
        let other : same_slot row.slot r.slot ≡ false = ground arith in
        let other' : same_slot row.slot q ≡ false =
          ap (λ s. same_slot row.slot s) (sym e) ∙ other in
        ground (arith, here, other')
  ]

  -- An update by an id that no row has changes nothing.
  update_where_absent :
      (id : Text) (t : Table)
      → All (λ r. id ≢ r.id) t
      → update_where (λ r. r.id == id) (λ _. row) t ≡ t
  update_where_absent id [] h = refl
  update_where_absent id (r ∷ t) h =
      let other = h.0 in
      ground (
        arith,
        update_where_absent id t h.1,
        λ (e : (r.id == id) ≡ true). other (sym (eq_of_== r.id id e)),
      )

pub contents-overwritten :
    (kv : TenantBits) (value : Text) (t : Table)
    → IsValid t
    → find (is_at kv.slot) t ≡ some kv
    → (q : Slot)
    → contents (update_where (λ r. r.id == kv.id) (λ _. record kv { value = value }) t) q
      ≡ put kv.slot (some value) (contents t) q
unfolding get_key_value
contents-overwritten kv value [] w h q = cc
contents-overwritten kv value (r ∷ t) w h q = elim (Bool-cases (is_at kv.slot r)) [
  | inl here ↦
      let same : kv ≡ r = ground arith in
      let rest =
        update_where_absent (record kv { value = value }) kv.id t
          (subst (λ (k : TenantBits). All (λ s. k.id ≢ s.id) t) (sym same) w.0) in
      ground (
        arith,
        rest,
        ==_of_eq r.id kv.id,
        same_slot_comm kv.slot q,
        ap (λ (k : TenantBits). same_slot q k.slot) same,
        ap (λ (k : TenantBits). k.id) same,
      )
  | inr other ↦
      let found : find (is_at kv.slot) t ≡ some kv = ground arith in
      let apart = find-All (is_at kv.slot) (λ s. r.id ≢ s.id) t w.0 found in
      elim (Bool-cases (is_at q r)) [
        | inr later ↦ ground (
          arith,
          contents-overwritten kv value t w.1 found q,
          λ (e : (r.id == kv.id) ≡ true). apart (eq_of_== r.id kv.id e),
        )
        | inl here ↦
            let e = eq_of_same_slot q r.slot here in
            let other' : same_slot kv.slot q ≡ false =
              ap (λ s. same_slot kv.slot s) (sym e) ∙ other in
            ground
              (arith, here, other', λ (e : (r.id == kv.id) ≡ true). apart (eq_of_== r.id kv.id e))
      ]
]

pub contents-delete_key :
    (s : Slot) (t : Table) (q : Slot) → contents (delete_key s t) q ≡ put s none (contents t) q
unfolding delete_key get_key_value
contents-delete_key s [] q = ground arith
contents-delete_key s (r ∷ t) q = elim (Bool-cases (is_at s r)) [
  | inl gone ↦
      let e = eq_of_same_slot s r.slot gone in
      ground (arith, contents-delete_key s t q, same_slot_comm s q, ap (λ x. same_slot q x) e)
  | inr kept ↦ elim (Bool-cases (is_at q r)) [
    | inr later ↦ ground (arith, contents-delete_key s t q)
    | inl here ↦
        let e = eq_of_same_slot q r.slot here in
        let other : same_slot s q ≡ false = ap (λ x. same_slot s x) (sym e) ∙ kept in ground arith
  ]
]

-- An update of rows that keeps their ids keeps the invariant.
pub overwritten-IsValid :
    (kv : TenantBits) (value : Text) (t : Table)
    → IsValid t
    → IsValid (update_where (λ r. r.id == kv.id) (λ _. record kv { value = value }) t)
overwritten-IsValid kv value [] w = tt
overwritten-IsValid kv value (r ∷ t) w =
    (head (Bool-cases (r.id == kv.id)), overwritten-IsValid kv value t w.1)
  where
    apart :
        (id : Text) (t : Table)
        → All (λ s. id ≢ s.id) t
        → All
            (λ s. id ≢ s.id)
            (update_where (λ r. r.id == kv.id) (λ _. record kv { value = value }) t)
    apart id [] h = tt
    apart id (s ∷ t) h = elim (Bool-cases (s.id == kv.id)) [
      | inl mine ↦ rw mine (λ e. h.0 (e ∙ sym (eq_of_== s.id kv.id mine)), apart id t h.1)
      | inr other ↦ rw other (h.0, apart id t h.1)
    ]

    head :
        (r.id == kv.id ≡ true) ⊎ (r.id == kv.id ≡ false)
        → All
            (λ s. (if r.id == kv.id then record kv { value = value } else r).id ≢ s.id)
            (update_where (λ r. r.id == kv.id) (λ _. record kv { value = value }) t)
    head (inl mine) = rw mine (
        subst
          (λ (id : Text).
            All (λ s. id ≢ s.id)
              (update_where (λ r. r.id == kv.id) (λ _. record kv { value = value }) t))
          (eq_of_== r.id kv.id mine) (apart r.id t w.0))
    head (inr other) = rw other (apart r.id t w.0)

pub no_clash :
    (row : TenantBits) (t : Table)
    → any (λ r. r.id == row.id || is_at row.slot r) t ≡ false
    → All (λ r. r.id ≢ row.id) t × (find (is_at row.slot) t ≡ none)
no_clash row [] h = (tt, refl)
no_clash row (r ∷ t) h =
    let rest = no_clash row t (ground arith) in
    ((ground (arith, ==_of_eq r.id row.id), rest.0), ground (arith, rest.1))

All-filter :
    (id : Text) (p : TenantBits → Bool) (t : Table)
    → All (λ r. id ≢ r.id) t
    → All (λ r. id ≢ r.id) (filter p t)
All-filter id p [] h = tt
All-filter id p (r ∷ t) h = elim (Bool-cases (p r)) [
  | inl kept ↦ rw kept (h.0, All-filter id p t h.1)
  | inr gone ↦ rw gone (All-filter id p t h.1)
]

pub filter-IsValid : (p : TenantBits → Bool) (t : Table) → IsValid t → IsValid (filter p t)
filter-IsValid p [] w = tt
filter-IsValid p (r ∷ t) w = elim (Bool-cases (p r)) [
  | inl kept ↦ rw kept (All-filter r.id p t w.0, filter-IsValid p t w.1)
  | inr gone ↦ rw gone (filter-IsValid p t w.1)
]
