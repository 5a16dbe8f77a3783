-- ===== src/Scope/Resolving.antt =====
-- Which scopes a client is granted.
use identity_ghost.Prelude.{
  ◌≡◌, refl, ap, ◌∙◌, sym, true, false, ◌&&◌, List, [], ◌∷◌, arith, ◌↔◌, Option, Text, includes,
  includes-distinct,
}
use identity_ghost.Errors.{ok, err, bad_request}
use identity_ghost.Scope.{parse, intersect, granted, requested_or, resolve_scopes}
use identity_ghost.Scope.Sorting.{includes-sort}
use identity_ghost.Scope.Laws.{includes-filter}

-- An intersection holds exactly the scopes that are in both lists.
pub includes-intersect :
    (xs ys : List Text) (a : Text) → includes (intersect xs ys) a ≡ (includes xs a && includes ys a)
unfolding intersect
includes-intersect xs ys a =
    includes-sort _ a ∙ includes-distinct _ a ∙ includes-filter (includes ys) xs a

granted-eq-ok : (xs : List Text) {r : List Text} → granted xs ≡ ok r → r ≡ xs
granted-eq-ok [] h = cc
granted-eq-ok (x ∷ xs) h = cc

-- When scopes are granted, they are exactly the requested ones that the client allows (all that it
-- allows, where none are requested).
pub resolve_scopes-ok :
    (requested : Option Text) (allowed : Option Text) {r : List Text}
    → resolve_scopes requested allowed ≡ ok r
    → (a : Text)
    → includes r a
      ≡ (includes (requested_or requested (parse allowed)) a && includes (parse allowed) a)
unfolding resolve_scopes
resolve_scopes-ok requested allowed h a =
    rw (granted-eq-ok _ h) (includes-intersect _ (parse allowed) a)

includes-head : (x : Text) (xs : List Text) → includes (x ∷ xs) x ≡ true
includes-head x xs = ground arith

-- A request is refused exactly when no requested scope is one that the client allows.
pub resolve_scopes-err_iff :
    (requested : Option Text) (allowed : Option Text)
    → (resolve_scopes requested allowed ≡ err bad_request) ↔ (
        (a : Text)
        → (includes (requested_or requested (parse allowed)) a && includes (parse allowed) a)
          ≡ false)
unfolding resolve_scopes
resolve_scopes-err_iff requested allowed = (to _ refl, from _ refl)
  where
    wanted : List Text
    wanted = requested_or requested (parse allowed)

    to :
        (xs : List Text)
        → intersect wanted (parse allowed) ≡ xs
        → granted xs ≡ err bad_request
        → (a : Text) → (includes wanted a && includes (parse allowed) a) ≡ false
    to [] e h a = rw (← includes-intersect wanted (parse allowed) a, e) refl
    to (x ∷ xs) e h a = cc

    from :
        (xs : List Text)
        → intersect wanted (parse allowed) ≡ xs
        → ((a : Text) → (includes wanted a && includes (parse allowed) a) ≡ false)
        → granted xs ≡ err bad_request
    from [] e h = refl
    from (x ∷ xs) e h =
        let clash : true ≡ false =
          sym (includes-head x xs)
          ∙ ap (λ l. includes l x) (sym e)
          ∙ includes-intersect wanted (parse allowed) x
          ∙ h x in
        cc
