-- ===== src/Prelude/Texts.antt =====
-- JavaScript strings as their UTF-16 code units. Identifiers, tokens, scopes and URIs are texts.
use Prim.Native.Nat.{ℕ}
use Prim.Native.Char.{code}
use Prim.Native.String.{String}
use mathlib.Core.Path.{◌≡◌, refl}
use mathlib.Core.Logic.{◌≢◌}
use mathlib.Core.Bool.{Bool, true, false}
use mathlib.Core.Option.{Option, none, some}
use mathlib.Core.List.{List, [], ◌∷◌}
use native.Mathlib.Decide.{ℕ_discrete}
use native.Mathlib.Omega.{arith}
use identity_ghost.Prelude.Tests.{if◌then◌else◌}
use identity_ghost.Prelude.Lists.{any}

abbrev pub Text : Type 0
Text = List ℕ

-- The text of an ASCII literal.
abbrev pub text : String → Text
text String.[] = []
text (String.◌∷◌ c s) = code c ∷ text s

cons_dec : {x y : ℕ} {s t : Text} → Dec (x ≡ y) → Dec (s ≡ t) → Dec (x ∷ s ≡ y ∷ t)
cons_dec (yes p) (yes q) = yes (λ i. p i ∷ q i)
cons_dec (yes p) (no q) = no (λ e. q (cc))
cons_dec (no p) d = no (λ e. p (cc))

unfoldable pub Text-discrete : Discrete Text
unfolding cons_dec ℕ_discrete
Text-discrete [] [] = yes refl
Text-discrete [] (y ∷ t) = no (λ e. cc)
Text-discrete (x ∷ s) [] = no (λ e. cc)
Text-discrete (x ∷ s) (y ∷ t) = cons_dec (ℕ_discrete x y) (Text-discrete s t)

-- `a === b`
infix 50 ◌==◌
abbrev pub ◌==◌ : Text → Text → Bool
a == b = elim (Text-discrete a b) [ yes _ ↦ true | no _ ↦ false ]

-- `!s`, of a string that may be null or undefined: the empty string is falsy.
abbrev pub is_blank : Text → Bool
is_blank [] = true
is_blank (_ ∷ _) = false

-- `s || null`
abbrev pub or_null : Option Text → Option Text
or_null none = none
or_null (some []) = none
or_null (some (c ∷ s)) = some (c ∷ s)

-- `o === s`, for a column that may be null.
abbrev pub is_text : Option Text → Text → Bool
is_text none s = false
is_text (some t) s = t == s

-- `xs.includes(a)`
abbrev pub includes : List Text → Text → Bool
includes xs a = any (λ x. x == a) xs

-- `new Set(xs)` in insertion order.
abbrev pub remove : Text → List Text → List Text
remove a [] = []
remove a (x ∷ xs) = let rest = remove a xs in if x == a then rest else x ∷ rest

abbrev pub distinct : List Text → List Text
distinct [] = []
distinct (x ∷ xs) = x ∷ remove x (distinct xs)

pub includes-remove :
    (a b : Text) (xs : List Text) → a ≢ b → includes (remove a xs) b ≡ includes xs b
includes-remove a b [] h = ground arith
includes-remove a b (x ∷ xs) h = ground (arith, includes-remove a b xs h)

pub includes-remove_self : (a : Text) (xs : List Text) → includes (remove a xs) a ≡ false
includes-remove_self a [] = ground arith
includes-remove_self a (x ∷ xs) = ground (arith, includes-remove_self a xs)

pub includes-distinct : (xs : List Text) (a : Text) → includes (distinct xs) a ≡ includes xs a
includes-distinct [] a = ground arith
includes-distinct (x ∷ xs) a =
    ground (arith, includes-distinct xs a, includes-remove x a (distinct xs))

pub eq_of_== : (a b : Text) → (a == b) ≡ true → a ≡ b
eq_of_== a b h = ground arith

pub ==_of_eq : (a b : Text) → a ≡ b → (a == b) ≡ true
==_of_eq a b h = ground arith
