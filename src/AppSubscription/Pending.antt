-- ===== src/AppSubscription/Pending.antt =====
-- No subscription is left pending.
use identity_ghost.Prelude.{
  ◌≡◌, refl, ap, ◌∙◌, Bool, true, false, ◌&&◌, ◌||◌, List, [], ◌∷◌, ◌++◌, arith, any, update_where,
  Text, ◌==◌, Bool-cases, inl, inr, eq_of_==,
}
use identity_ghost.Directory.{Subscription, SubscriptionStatus, pending}
use identity_ghost.AppSubscription.{put, remove_row}

abbrev pub is_pending : SubscriptionStatus → Bool
is_pending pending = true
is_pending _ = false

-- The row with this id is pending.
abbrev pub pends : List Subscription → Text → Bool
pends t id = any (λ s. s.id == id && is_pending s.status) t

pends-append_one :
    (row : Subscription) (t : List Subscription) (id : Text)
    → pends (t ++ row ∷ []) id ≡ true
    → (pends t id || row.id == id) ≡ true
pends-append_one row [] id h = ground arith
pends-append_one row (s ∷ t) id h = ground (arith, pends-append_one row t id)

pends-overwritten :
    (row : Subscription) (t : List Subscription) (id : Text)
    → pends (update_where (λ s. s.id == row.id) (λ _. row) t) id ≡ true
    → (pends t id || row.id == id) ≡ true
pends-overwritten row [] id h = cc
pends-overwritten row (s ∷ t) id h = ground (arith, pends-overwritten row t id)

-- Saving a row adds at most its own id.
pub pends-put :
    (row : Subscription) (t : List Subscription) (id : Text)
    → pends (put row t) id ≡ true
    → (pends t id || row.id == id) ≡ true
unfolding put
pends-put row t id h = elim (Bool-cases (any (λ (s : Subscription). s.id == row.id) t)) [
  | inl there ↦ pends-overwritten row t id (rw there at h)
  | inr new_ ↦ pends-append_one row t id (rw new_ at h)
]

other_of_overwritten :
    (row : Subscription) (t : List Subscription)
    → is_pending row.status ≡ false
    → pends (update_where (λ s. s.id == row.id) (λ _. row) t) row.id ≡ false
other_of_overwritten row [] h = refl
other_of_overwritten row (s ∷ t) h = ground (arith, other_of_overwritten row t h)

absent_appended :
    (row : Subscription) (t : List Subscription)
    → is_pending row.status ≡ false
    → any (λ s. s.id == row.id) t ≡ false
    → pends (t ++ row ∷ []) row.id ≡ false
absent_appended row [] h k = ground arith
absent_appended row (s ∷ t) h k = ground (arith, absent_appended row t h)

-- A settled row is not pending once it is saved.
not_pending-put :
    (row : Subscription) (t : List Subscription)
    → is_pending row.status ≡ false
    → pends (put row t) row.id ≡ false
unfolding put
not_pending-put row t h = elim (Bool-cases (any (λ (s : Subscription). s.id == row.id) t)) [
  | inl there ↦ rw there (other_of_overwritten row t h)
  | inr new_ ↦ rw new_ (absent_appended row t h new_)
]

pub pends-remove_row :
    (id' : Text) (t : List Subscription) (id : Text)
    → pends (remove_row id' t) id ≡ true
    → pends t id ≡ true
unfolding remove_row
pends-remove_row id' [] id h = cc
pends-remove_row id' (s ∷ t) id h = ground (arith, pends-remove_row id' t id)

-- What is pending afterwards was pending before, but for what stood in `extra`.
abbrev pub Within : List Subscription → Text → List Subscription → Type 0
Within t extra t' = (id : Text) → pends t' id ≡ true → (pends t id || extra == id) ≡ true

abbrev pub NoNew : List Subscription → List Subscription → Type 0
NoNew t t' = (id : Text) → pends t' id ≡ true → pends t id ≡ true

pub settle_row :
    (row : Subscription) (t t' : List Subscription)
    → is_pending row.status ≡ false
    → Within t row.id t'
    → NoNew t (put row t')
settle_row row t t' off within id h =
    let gone = not_pending-put row t' off in
    elim (Bool-cases (row.id == id)) [
      | inl same ↦
          let e = eq_of_== row.id id same in
          let bad : pends (put row t') row.id ≡ true = ap (λ x. pends (put row t') x) e ∙ h in cc
      | inr other ↦
          let older = pends-put row t' id h in
          let before = within id (ground (arith, older, other)) in ground (arith, before, other)
    ]
