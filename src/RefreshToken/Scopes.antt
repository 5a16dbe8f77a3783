-- ===== src/RefreshToken/Scopes.antt =====
-- The narrowing of scopes at a rotation.
use identity_ghost.Prelude.{
  ℕ, ◌≡◌, refl, sym, ap, ◌∙◌, Bool, true, false, ◌&&◌, Option, none, some, List, [], ◌∷◌, ◌++◌,
  arith, filter, all, All, Text, includes, distinct, remove, push_head, split_on, join_space, eqb,
  includes-distinct, Bool-cases, inl, inr,
}
use identity_ghost.Errors.{ok}
use identity_ghost.Scope.{is_nonempty}
use identity_ghost.Scope.Laws.{includes-filter}
use identity_ghost.RefreshToken.{
  RefreshToken, Config, scope_set, validate_scope_subset, granted_scope,
}

-- A text with no space in it.
abbrev IsWord : Text → Type 0
IsWord w = All (λ c. eqb c b' ' ≡ false) w

push_head-IsWord :
    (c : ℕ) (ws : List Text) → eqb c b' ' ≡ false → All IsWord ws → All IsWord (push_head c ws)
push_head-IsWord c [] h k = ((h, tt), tt)
push_head-IsWord c (w ∷ ws) h k = ((h, k.0), k.1)

split_on-IsWord : (s : Text) → All IsWord (split_on b' ' s)
unfolding split_on
split_on-IsWord [] = (tt, tt)
split_on-IsWord (x ∷ s) = elim (Bool-cases (eqb x b' ')) [
  | inl space ↦ rw space (tt, split_on-IsWord s)
  | inr other ↦ rw other (push_head-IsWord x _ other (split_on-IsWord s))
]

split_on-append_space :
    (w s : Text) → IsWord w → split_on b' ' (w ++ b' ' ∷ s) ≡ w ∷ split_on b' ' s
unfolding split_on
split_on-append_space [] s h = refl
split_on-append_space (x ∷ w) s h = rw (h.0, split_on-append_space w s h.1)

split_on_of_IsWord : (w : Text) → IsWord w → split_on b' ' w ≡ w ∷ []
unfolding split_on
split_on_of_IsWord [] h = refl
split_on_of_IsWord (x ∷ w) h = rw (h.0, split_on_of_IsWord w h.1)

split_on-join_space :
    (w : Text) (ws : List Text) → All IsWord (w ∷ ws) → split_on b' ' (join_space (w ∷ ws)) ≡ w ∷ ws
unfolding join_space
split_on-join_space w [] h = split_on_of_IsWord w h.0
split_on-join_space w (v ∷ ws) h =
    split_on-append_space w (join_space (v ∷ ws)) h.0
    ∙ ap (λ r. w ∷ r) (split_on-join_space v ws h.1)

filter-IsWord : (p : Text → Bool) (xs : List Text) → All IsWord xs → All IsWord (filter p xs)
filter-IsWord p [] h = tt
filter-IsWord p (x ∷ xs) h = ground (arith, filter-IsWord p xs h.1)

remove-IsWord : (a : Text) (xs : List Text) → All IsWord xs → All IsWord (remove a xs)
remove-IsWord a [] h = tt
remove-IsWord a (x ∷ xs) h = ground (arith, remove-IsWord a xs h.1)

distinct-IsWord : (xs : List Text) → All IsWord xs → All IsWord (distinct xs)
distinct-IsWord [] h = tt
distinct-IsWord (x ∷ xs) h = (h.0, remove-IsWord x (distinct xs) (distinct-IsWord xs h.1))

scope_set-IsWord : (s : Text) → All IsWord (scope_set s)
scope_set-IsWord s = distinct-IsWord _ (filter-IsWord is_nonempty _ (split_on-IsWord s))

-- The scopes of a joined list are those of the list.
includes-scope_set-join_space :
    (ws : List Text) (a : Text)
    → All IsWord ws
    → includes (scope_set (join_space ws)) a ≡ true
    → includes ws a ≡ true
unfolding join_space split_on
includes-scope_set-join_space [] a h k = cc
includes-scope_set-join_space (w ∷ ws) a h k =
    let words = split_on b' ' (join_space (w ∷ ws)) in
    let both : (includes (w ∷ ws) a && is_nonempty a) ≡ true =
      sym (ap (λ l. includes l a && is_nonempty a) (split_on-join_space w ws h))
      ∙ sym (includes-filter is_nonempty words a)
      ∙ sym (includes-distinct (filter is_nonempty words) a)
      ∙ k in
    ground arith

includes_of_all :
    (ys xs : List Text) (a : Text)
    → all (includes ys) xs ≡ true
    → includes xs a ≡ true
    → includes ys a ≡ true
includes_of_all ys [] a h k = cc
includes_of_all ys (x ∷ xs) a h k = ground (arith, includes_of_all ys xs a)

validate_scope_subset-eq-ok :
    (requested recorded : Text) {scope : Text}
    → validate_scope_subset requested recorded ≡ ok scope
    → (a : Text) → includes (scope_set scope) a ≡ true
    → includes (scope_set recorded) a ≡ true
unfolding validate_scope_subset
validate_scope_subset-eq-ok requested recorded {scope} h a k =
    elim (Bool-cases (all (includes (scope_set recorded)) (scope_set requested))) [
      | inl subset ↦
          let same : scope ≡ join_space (scope_set requested) = ground arith in
          includes_of_all (scope_set recorded) (scope_set requested) a subset (
            includes-scope_set-join_space (scope_set requested) a (scope_set-IsWord requested)
              (ap (λ s. includes (scope_set s) a) (sym same) ∙ k))
      | inr excess ↦ absurd (ground arith)
    ]

-- Whatever the client asks for, each scope of the new token is one of the old token's.
pub granted_scope-narrows :
    (hash : Text → Text) (config : Config) (requested : Option Text) (e : RefreshToken)
    {scope : Text}
    → granted_scope hash config requested e ≡ ok scope
    → (a : Text) → includes (scope_set scope) a ≡ true
    → includes (scope_set e.scope) a ≡ true
unfolding granted_scope
granted_scope-narrows hash config none e {scope} h a k =
    let same : e.scope ≡ scope = ground arith in rw same k
granted_scope-narrows hash config (some []) e {scope} h a k =
    let same : e.scope ≡ scope = ground arith in rw same k
granted_scope-narrows hash config (some (c ∷ s)) e h a k =
    validate_scope_subset-eq-ok (c ∷ s) e.scope h a k
