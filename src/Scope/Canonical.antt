-- ===== src/Scope/Canonical.antt =====
-- The list that the code keeps of some scopes: no empty ones, none twice, in order.
use identity_ghost.Prelude.{
  ◌≡◌, refl, ap, Bool, false, List, [], ◌∷◌, arith, Text, includes, remove, distinct, filter, All,
  includes-remove_self,
}
use identity_ghost.Scope.{insert, sort, is_nonempty}
use identity_ghost.Scope.Sorting.{IsSorted, sort_of_IsSorted, includes-insert, includes-sort}
use identity_ghost.Scope.Tokens.{IsSolid, IsToken}

-- No text occurs twice.
abbrev pub IsDistinct : List Text → Type 0
IsDistinct [] = Unit
IsDistinct (x ∷ xs) = (includes xs x ≡ false) × IsDistinct xs

-- What the code keeps of a list of scopes: no empty ones, none twice, in order.
abbrev pub canonical : List Text → List Text
canonical xs = sort (filter is_nonempty (distinct xs))

includes-remove-false :
    (a b : Text) (xs : List Text) → includes xs b ≡ false → includes (remove a xs) b ≡ false
includes-remove-false a b [] h = refl
includes-remove-false a b (x ∷ xs) h = ground (arith, includes-remove-false a b xs)

remove-IsDistinct : (a : Text) (xs : List Text) → IsDistinct xs → IsDistinct (remove a xs)
remove-IsDistinct a [] h = tt
remove-IsDistinct a (x ∷ xs) h =
    ground (arith, remove-IsDistinct a xs, includes-remove-false a x xs)

distinct-IsDistinct : (xs : List Text) → IsDistinct (distinct xs)
distinct-IsDistinct [] = tt
distinct-IsDistinct (x ∷ xs) =
    (includes-remove_self x (distinct xs), remove-IsDistinct x _ (distinct-IsDistinct xs))

includes-filter-false :
    (p : Text → Bool) (b : Text) (xs : List Text)
    → includes xs b ≡ false
    → includes (filter p xs) b ≡ false
includes-filter-false p b [] h = refl
includes-filter-false p b (x ∷ xs) h = ground (arith, includes-filter-false p b xs)

filter-IsDistinct : (p : Text → Bool) (xs : List Text) → IsDistinct xs → IsDistinct (filter p xs)
filter-IsDistinct p [] h = tt
filter-IsDistinct p (x ∷ xs) h =
    ground (arith, filter-IsDistinct p xs, includes-filter-false p x xs)

insert-IsDistinct :
    (a : Text) (xs : List Text) → includes xs a ≡ false → IsDistinct xs → IsDistinct (insert a xs)
unfolding insert
insert-IsDistinct a [] h k = (refl, tt)
insert-IsDistinct a (x ∷ xs) h k = ground (arith, insert-IsDistinct a xs, includes-insert a x xs)

sort-IsDistinct : (xs : List Text) → IsDistinct xs → IsDistinct (sort xs)
unfolding sort
sort-IsDistinct [] h = tt
sort-IsDistinct (x ∷ xs) h =
    insert-IsDistinct x (sort xs) (rw (includes-sort xs x) h.0) (sort-IsDistinct xs h.1)

pub canonical-IsDistinct : (xs : List Text) → IsDistinct (canonical xs)
canonical-IsDistinct xs =
    sort-IsDistinct _ (filter-IsDistinct is_nonempty _ (distinct-IsDistinct xs))

module _ (P : Text → Type 0) where
  All-remove : (a : Text) (xs : List Text) → All P xs → All P (remove a xs)
  All-remove a [] h = tt
  All-remove a (x ∷ xs) h = ground (arith, All-remove a xs h.1)

  All-distinct : (xs : List Text) → All P xs → All P (distinct xs)
  All-distinct [] h = tt
  All-distinct (x ∷ xs) h = (h.0, All-remove x (distinct xs) (All-distinct xs h.1))

  All-insert : (a : Text) (xs : List Text) → P a → All P xs → All P (insert a xs)
  unfolding insert
  All-insert a [] p h = (p, tt)
  All-insert a (x ∷ xs) p h = ground (arith, All-insert a xs p h.1)

  pub All-sort : (xs : List Text) → All P xs → All P (sort xs)
  unfolding sort
  All-sort [] h = tt
  All-sort (x ∷ xs) h = All-insert x (sort xs) h.0 (All-sort xs h.1)

filter-IsToken : (xs : List Text) → All IsSolid xs → All IsToken (filter is_nonempty xs)
filter-IsToken [] h = tt
filter-IsToken ([] ∷ xs) h = filter-IsToken xs h.1
filter-IsToken ((c ∷ w) ∷ xs) h = ((refl, h.0), filter-IsToken xs h.1)

pub canonical-IsToken : (xs : List Text) → All IsSolid xs → All IsToken (canonical xs)
canonical-IsToken xs h = All-sort IsToken _ (filter-IsToken _ (All-distinct IsSolid xs h))

remove_of_missing : (a : Text) (xs : List Text) → includes xs a ≡ false → remove a xs ≡ xs
remove_of_missing a [] h = refl
remove_of_missing a (x ∷ xs) h = ground (arith, remove_of_missing a xs)

distinct_of_IsDistinct : (xs : List Text) → IsDistinct xs → distinct xs ≡ xs
distinct_of_IsDistinct [] h = refl
distinct_of_IsDistinct (x ∷ xs) h =
    rw (distinct_of_IsDistinct xs h.1) (ap (λ r. x ∷ r) (remove_of_missing x xs h.0))

filter_of_IsToken : (xs : List Text) → All IsToken xs → filter is_nonempty xs ≡ xs
filter_of_IsToken [] h = refl
filter_of_IsToken (x ∷ xs) h = rw (h.0.0, filter_of_IsToken xs h.1)

pub canonical_of :
    (xs : List Text) → All IsToken xs → IsDistinct xs → IsSorted xs → canonical xs ≡ xs
canonical_of xs t d s =
    rw (distinct_of_IsDistinct xs d, filter_of_IsToken xs t) (sort_of_IsSorted xs s)
