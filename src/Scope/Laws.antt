-- ===== src/Scope/Laws.antt =====
-- The laws of `parse`, `format` and `union`.
use identity_ghost.Prelude.{
  ◌≡◌, refl, ap, ◌∙◌, Bool, false, ◌||◌, ◌&&◌, List, [], ◌∷◌, ◌++◌, arith, Bool-cases, inl, inr,
  Option, none, some, Text, is_blank, includes, distinct, filter, All, trim, join_space,
  includes-distinct,
}
use identity_ghost.Scope.{is_nonempty, parse, format, normalize, union}
use identity_ghost.Scope.Sorting.{IsSorted, sort-IsSorted, includes-sort}
use identity_ghost.Scope.Tokens.{
  IsSolid, IsToken, split_runs-IsSolid, split_runs-join_space, trim-join_space, is_blank-join_space,
}
use identity_ghost.Scope.Canonical.{
  IsDistinct, canonical, canonical-IsDistinct, canonical-IsToken, canonical_of,
}

parse-join_space :
    (xs : List Text)
    → All IsToken xs
    → IsDistinct xs
    → IsSorted xs
    → parse (some (join_space xs)) ≡ xs
unfolding parse join_space
parse-join_space [] t d s = refl
parse-join_space (w ∷ ws) t d s =
    rw (is_blank-join_space w ws t.0, trim-join_space w ws t, split_runs-join_space w ws t)
      (canonical_of (w ∷ ws) t d s)

-- Parsing any scope string gives tokens in order, none twice.
pub record IsScopeList (xs : List Text) : Type 0 where
  pub tokens : All IsToken xs
  pub once : IsDistinct xs
  pub ordered : IsSorted xs

pub canonical-IsScopeList : (xs : List Text) → All IsSolid xs → IsScopeList (canonical xs)
canonical-IsScopeList xs h = record {
  tokens = canonical-IsToken xs h;
  once = canonical-IsDistinct xs;
  ordered = sort-IsSorted _;
}

-- Whatever the string, `parse` returns scope tokens in order, each of them once.
pub parse-IsScopeList : (s : Option Text) → IsScopeList (parse s)
unfolding parse
parse-IsScopeList none = record { tokens = tt; once = tt; ordered = tt }
parse-IsScopeList (some s) = elim (Bool-cases (is_blank s)) [
  | inl blank ↦ rw blank (record { tokens = tt; once = tt; ordered = tt })
  | inr filled ↦ rw filled (canonical-IsScopeList _ (split_runs-IsSolid (trim s)))
]

-- Formatting a list of scopes with no separators inside, then parsing, gives the list without
-- empty and repeated scopes, in order.
pub parse-format : (xs : List Text) → All IsSolid xs → parse (some (format xs)) ≡ canonical xs
unfolding format
parse-format xs h =
    parse-join_space (canonical xs) (canonical-IsToken xs h) (canonical-IsDistinct xs)
      (sort-IsSorted (filter is_nonempty (distinct xs)))

pub All-IsSolid : (xs : List Text) → All IsToken xs → All IsSolid xs
All-IsSolid [] h = tt
All-IsSolid (x ∷ xs) h = (h.0.1, All-IsSolid xs h.1)

-- Formatting what was parsed, and parsing that, changes nothing.
pub parse-format-parse : (s : Option Text) → parse (some (format (parse s))) ≡ parse s
parse-format-parse s =
    let p = parse-IsScopeList s in
    parse-format (parse s) (All-IsSolid (parse s) p.tokens)
    ∙ canonical_of (parse s) p.tokens p.once p.ordered

-- `normalize` is idempotent, for every scope string.
pub normalize_idempotent : (s : Option Text) → normalize (some (normalize s)) ≡ normalize s
unfolding normalize
normalize_idempotent s = ap format (parse-format-parse s)

pub includes-filter :
    (p : Text → Bool) (xs : List Text) (a : Text)
    → includes (filter p xs) a ≡ (includes xs a && p a)
includes-filter p [] a = refl
includes-filter p (x ∷ xs) a = ground (arith, includes-filter p xs a)

pub includes-canonical :
    (xs : List Text) (a : Text) → includes (canonical xs) a ≡ (includes xs a && is_nonempty a)
includes-canonical xs a =
    includes-sort _ a
    ∙ includes-filter is_nonempty (distinct xs) a
    ∙ ap (λ b. b && is_nonempty a) (includes-distinct xs a)

not-includes-blank : (xs : List Text) → All IsToken xs → includes xs [] ≡ false
not-includes-blank [] h = refl
not-includes-blank (x ∷ xs) h = ground (arith, not-includes-blank xs h.1)

-- No token is empty.
pub includes-nonempty :
    (xs : List Text) (a : Text) → All IsToken xs → (includes xs a && is_nonempty a) ≡ includes xs a
includes-nonempty xs [] h = ground (arith, not-includes-blank xs h)
includes-nonempty xs (c ∷ a) h = ground arith

-- A round trip through the stored string keeps exactly the scopes that were there.
pub includes-parse-format :
    (xs : List Text) (a : Text)
    → All IsToken xs
    → includes (parse (some (format xs))) a ≡ includes xs a
includes-parse-format xs a h =
    ap (λ l. includes l a) (parse-format xs (All-IsSolid xs h))
    ∙ includes-canonical xs a
    ∙ includes-nonempty xs a h

includes-append :
    (xs ys : List Text) (a : Text) → includes (xs ++ ys) a ≡ (includes xs a || includes ys a)
includes-append [] ys a = refl
includes-append (x ∷ xs) ys a = ground (arith, includes-append xs ys a)

-- A union holds the nonempty scopes of either list.
pub includes-union :
    (xs ys : List Text) (a : Text)
    → includes (union xs ys) a ≡ ((includes xs a || includes ys a) && is_nonempty a)
unfolding union
includes-union xs ys a =
    includes-canonical (xs ++ ys) a ∙ ap (λ b. b && is_nonempty a) (includes-append xs ys a)

All-append-IsSolid : (xs ys : List Text) → All IsSolid xs → All IsSolid ys → All IsSolid (xs ++ ys)
All-append-IsSolid [] ys h k = k
All-append-IsSolid (x ∷ xs) ys h k = (h.0, All-append-IsSolid xs ys h.1 k)

pub union-IsScopeList :
    (xs ys : List Text) → All IsSolid xs → All IsSolid ys → IsScopeList (union xs ys)
unfolding union
union-IsScopeList xs ys h k = canonical-IsScopeList (xs ++ ys) (All-append-IsSolid xs ys h k)
