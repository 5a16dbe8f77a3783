-- ===== src/Prelude/Lists.antt =====
-- Lists over the native numbers, and predicates by recursion.
use Prim.Native.Nat.{ℕ, suc, ◌+◌}
use mathlib.Core.Path.{◌≡◌, refl, subst}
use mathlib.Core.Bool.{Bool, true, false, ◌&&◌, ◌||◌}
use mathlib.Core.Logic.{inl, inr}
use mathlib.Core.Option.{Option, none, some}
use mathlib.Core.List.{List, [], ◌∷◌, ◌++◌}
use native.Mathlib.Omega.{arith}
use identity_ghost.Prelude.Tests.{if◌then◌else◌, Bool-cases}

module _ {ℓ} {A : Type ℓ} where
  abbrev pub length : List A → ℕ
  length [] = 0
  length (x ∷ xs) = suc (length xs)

  -- `xs.filter(p)`
  abbrev pub filter : (A → Bool) → List A → List A
  filter p [] = []
  filter p (x ∷ xs) = let rest = filter p xs in if p x then x ∷ rest else rest

  -- The first row for which `p` holds: `findOne({where: …})`.
  abbrev pub find : (A → Bool) → List A → Option A
  find p [] = none
  find p (x ∷ xs) = let rest = find p xs in if p x then some x else rest

  -- `UPDATE … SET f WHERE p`
  abbrev pub update_where : (A → Bool) → (A → A) → List A → List A
  update_where p f [] = []
  update_where p f (x ∷ xs) = (if p x then f x else x) ∷ update_where p f xs

  abbrev pub all : (A → Bool) → List A → Bool
  all p [] = true
  all p (x ∷ xs) = p x && all p xs

  abbrev pub any : (A → Bool) → List A → Bool
  any p [] = false
  any p (x ∷ xs) = p x || any p xs

  pub length-append : (xs ys : List A) → length (xs ++ ys) ≡ length xs + length ys
  length-append [] ys = omega arith
  length-append (x ∷ xs) ys = omega (arith, length-append xs ys)

module _ {ℓ κ} {A : Type ℓ} (P : A → Type κ) where
  -- `P` holds of each element.
  abbrev pub All : List A → Type κ
  All [] = Unit
  All (x ∷ xs) = P x × All xs

  pub All-append : (xs ys : List A) → All xs → All ys → All (xs ++ ys)
  All-append [] ys hx hy = hy
  All-append (x ∷ xs) ys hx hy = (hx.0, All-append xs ys hx.1 hy)

-- Queries on a table, and what an update or an insertion does to them.
module _ {ℓ} {A : Type ℓ} (p : A → Bool) where
  pub find-test : (xs : List A) {a : A} → find p xs ≡ some a → p a ≡ true
  find-test [] h = cc
  find-test (x ∷ xs) {a} h = ground (arith, find-test xs {a = a})

  pub find-append_some : (xs ys : List A) {a : A} → find p xs ≡ some a → find p (xs ++ ys) ≡ some a
  find-append_some [] ys h = cc
  find-append_some (x ∷ xs) ys {a} h = ground (arith, find-append_some xs ys {a = a})

  pub find-append_none : (xs ys : List A) → find p xs ≡ none → find p (xs ++ ys) ≡ find p ys
  find-append_none [] ys h = refl
  find-append_none (x ∷ xs) ys h = ground (arith, find-append_none xs ys)

  -- What an update makes of one row.
  abbrev pub updated : (A → A) → A → A
  updated f x = if p x then f x else x

  pub find-All {κ} : (P : A → Type κ) (xs : List A) {a : A} → All P xs → find p xs ≡ some a → P a
  find-All P [] h e = cc
  find-All P (x ∷ xs) {a} h e = elim (Bool-cases (p x)) [
    | inl t ↦ let same : x ≡ a = ground arith in subst P same h.0
    | inr f ↦ find-All P xs h.1 (ground arith)
  ]

  -- An update that keeps what a query reads does not change which row the query finds.
  pub find-update_where :
      (q : A → Bool) (f : A → A) (xs : List A)
      → ((x : A) → p (f x) ≡ p x)
      → {a : A} → find p xs ≡ some a
      → find p (update_where q f xs) ≡ some (if q a then f a else a)
  find-update_where q f [] h e = cc
  find-update_where q f (x ∷ xs) h {a} e = ground (arith, h x, find-update_where q f xs h {a = a})

module _ {ℓ κ} {A : Type ℓ} (P : A → Type κ) (q : A → Bool) (f : A → A) where
  pub All-update_where :
      (xs : List A) → ((x : A) → P x → P (f x)) → All P xs → All P (update_where q f xs)
  All-update_where [] h k = tt
  All-update_where (x ∷ xs) h k = (kept (q x), All-update_where xs h k.1)
    where
      kept : (b : Bool) → P (if b then f x else x)
      kept true = h x k.0
      kept false = k.0

module _ {ℓ κ ι} {A : Type ℓ} (P : A → Type κ) (Q : A → Type ι) where
  pub All-imp : (xs : List A) → ((x : A) → P x → Q x) → All P xs → All Q xs
  All-imp [] h k = tt
  All-imp (x ∷ xs) h k = (h x k.0, All-imp xs h k.1)

module _ {ℓ κ} {A : Type ℓ} (R : A → A → Type κ) where
  -- `R` holds of each element and each later one.
  abbrev pub Pairwise : List A → Type κ
  Pairwise [] = Unit
  Pairwise (x ∷ xs) = All (R x) xs × Pairwise xs

  pub Pairwise-update_where :
      (q : A → Bool) (f : A → A) (xs : List A)
      → ((x y : A) → R x y → R (f x) y)
      → ((x y : A) → R x y → R x (f y))
      → Pairwise xs
      → Pairwise (update_where q f xs)
  Pairwise-update_where q f [] h k w = tt
  Pairwise-update_where q f (x ∷ xs) h k w = (head (q x), Pairwise-update_where q f xs h k w.1)
    where
      later : All (R x) (update_where q f xs)
      later = All-update_where (R x) q f xs (k x) w.0

      head : (b : Bool) → All (R (if b then f x else x)) (update_where q f xs)
      head true = All-imp (R x) (R (f x)) _ (h x) later
      head false = later

  pub Pairwise-append_one :
      (xs : List A) (y : A) → Pairwise xs → All (λ x. R x y) xs → Pairwise (xs ++ y ∷ [])
  Pairwise-append_one [] y w h = (tt, tt)
  Pairwise-append_one (x ∷ xs) y w h =
      (All-append (R x) xs (y ∷ []) w.0 (h.0, tt), Pairwise-append_one xs y w.1 h.1)

  -- A row that a query finds is related to every row.
  pub Pairwise-find :
      (p : A → Bool) (xs : List A) {a : A}
      → ((x : A) → R x x)
      → ((x y : A) → R x y → R y x)
      → Pairwise xs
      → find p xs ≡ some a
      → All (R a) xs
  Pairwise-find p [] r s w e = tt
  Pairwise-find p (x ∷ xs) {a} r s w e = elim (Bool-cases (p x)) [
    | inl t ↦ let same : x ≡ a = ground arith in subst (λ b. All (R b) (x ∷ xs)) same (r x, w.0)
    | inr f ↦
        let found : find p xs ≡ some a = ground arith in
        (s x a (find-All p (R x) xs w.0 found), Pairwise-find p xs r s w.1 found)
  ]
