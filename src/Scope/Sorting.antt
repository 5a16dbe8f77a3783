-- ===== src/Scope/Sorting.antt =====
-- Sorting scopes: the result is in order, holds the same scopes, and sorting again changes nothing.
use identity_ghost.Prelude.{
  ◌≡◌, refl, true, false, ◌||◌, List, [], ◌∷◌, arith, Bool-cases, inl, inr, Text, ◌==◌, includes,
}
use identity_ghost.Scope.{text_le, insert, sort}

text_le-total : (s t : Text) → text_le s t ≡ false → text_le t s ≡ true
unfolding text_le
text_le-total [] t h = cc
text_le-total (x ∷ s) [] h = refl
text_le-total (x ∷ s) (y ∷ t) h = ground (arith, text_le-total s t)

text_le_trans : (s t u : Text) → text_le s t ≡ true → text_le t u ≡ true → text_le s u ≡ true
unfolding text_le
text_le_trans [] t u h k = refl
text_le_trans (x ∷ s) [] u h k = cc
text_le_trans (x ∷ s) (y ∷ t) [] h k = cc
text_le_trans (x ∷ s) (y ∷ t) (z ∷ u) h k = ground (arith, text_le_trans s t u)

-- `a` stands before every element of `xs`.
abbrev pub IsBelow : Text → List Text → Type 0
IsBelow a [] = Unit
IsBelow a (x ∷ xs) = text_le a x ≡ true

-- Neighbours are in order.
abbrev pub IsSorted : List Text → Type 0
IsSorted [] = Unit
IsSorted (x ∷ xs) = IsBelow x xs × IsSorted xs

IsBelow-insert :
    (b a : Text) (xs : List Text) → text_le b a ≡ true → IsBelow b xs → IsBelow b (insert a xs)
unfolding insert
IsBelow-insert b a [] h k = h
IsBelow-insert b a (x ∷ xs) h k = ground arith

insert-IsSorted : (a : Text) (xs : List Text) → IsSorted xs → IsSorted (insert a xs)
unfolding insert
insert-IsSorted a [] h = (tt, tt)
insert-IsSorted a (x ∷ xs) h = elim (Bool-cases (text_le a x)) [
  | inl le ↦ rw le (le, h)
  | inr gt ↦ rw gt (IsBelow-insert x a xs (text_le-total a x gt) h.0, insert-IsSorted a xs h.1)
]

pub sort-IsSorted : (xs : List Text) → IsSorted (sort xs)
unfolding sort
sort-IsSorted [] = tt
sort-IsSorted (x ∷ xs) = insert-IsSorted x (sort xs) (sort-IsSorted xs)

insert_of_IsBelow : (a : Text) (xs : List Text) → IsBelow a xs → insert a xs ≡ a ∷ xs
unfolding insert
insert_of_IsBelow a [] h = refl
insert_of_IsBelow a (x ∷ xs) h = rw h

pub sort_of_IsSorted : (xs : List Text) → IsSorted xs → sort xs ≡ xs
unfolding sort
sort_of_IsSorted [] h = refl
sort_of_IsSorted (x ∷ xs) h = rw (sort_of_IsSorted xs h.1) (insert_of_IsBelow x xs h.0)

pub includes-insert :
    (a b : Text) (xs : List Text) → includes (insert a xs) b ≡ (a == b || includes xs b)
unfolding insert
includes-insert a b [] = refl
includes-insert a b (x ∷ xs) = ground (arith, includes-insert a b xs)

pub includes-sort : (xs : List Text) (b : Text) → includes (sort xs) b ≡ includes xs b
unfolding sort
includes-sort [] b = refl
includes-sort (x ∷ xs) b = ground (arith, includes-insert x b (sort xs), includes-sort xs b)
