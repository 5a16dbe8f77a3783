-- ===== src/Scope.antt =====
-- srv/src/casl/scope-normalizer.ts and scope-resolver.service.ts: OAuth scope strings and sets.
pub mod Sorting
pub mod Tokens
pub mod Canonical
pub mod Laws
pub mod Resolving
mod Tests
use identity_ghost.Prelude.{
  ℕ, ◌++◌, Bool, true, false, ◌&&◌, ◌||◌, not, Option, none, some, List, [], ◌∷◌, leb, ltb, eqb,
  if◌then◌else◌, filter, all, Text, is_blank, includes, distinct, is_space, split_runs, trim,
  join_space,
}
use identity_ghost.Errors.{Result, ok, err, bad_request}

-- The order of JavaScript's default `sort`: by UTF-16 code units.
unfoldable pub text_le : Text → Text → Bool
text_le [] t = true
text_le (x ∷ s) [] = false
text_le (x ∷ s) (y ∷ t) = let rest = text_le s t in if ltb x y then true else eqb x y && rest

unfoldable pub insert : Text → List Text → List Text
insert a [] = a ∷ []
insert a (x ∷ xs) = let rest = insert a xs in if text_le a x then a ∷ x ∷ xs else x ∷ rest

-- `xs.sort()`
unfoldable pub sort : List Text → List Text
sort [] = []
sort (x ∷ xs) = insert x (sort xs)

-- The class `[\s,]` that divides scopes.
abbrev pub is_separator : ℕ → Bool
is_separator c = is_space c || eqb c b','

abbrev pub is_nonempty : Text → Bool
is_nonempty s = not (is_blank s)

-- `ScopeNormalizer.parse`; `null` and `undefined` are `none`.
unfoldable pub parse : Option Text → List Text
unfolding sort insert text_le split_runs trim is_space
parse none = []
parse (some s) =
    if is_blank s
    then []
    else sort (filter is_nonempty (distinct (split_runs is_separator (trim s))))

unfoldable pub format : List Text → Text
unfolding sort insert text_le join_space
format scopes = join_space (sort (filter is_nonempty (distinct scopes)))

unfoldable pub normalize : Option Text → Text
unfolding parse format
normalize s = format (parse s)

unfoldable pub intersect : List Text → List Text → List Text
unfolding sort insert text_le
intersect a b = sort (distinct (filter (includes b) a))

unfoldable pub union : List Text → List Text → List Text
unfolding sort insert text_le
union a b = sort (filter is_nonempty (distinct (a ++ b)))

-- The class of the regular expression in `validate`: printable ASCII without `"` and `\`.
abbrev is_nqschar : ℕ → Bool
is_nqschar c = (leb 32 c && leb c 33) || (leb 35 c && leb c 91) || (leb 93 c && leb c 126)

unfoldable pub validate : Option Text → Bool
validate none = true
validate (some s) = if is_blank s then true else all is_nqschar s

-- `resolveScopes` once the two lists are known; an empty result throws.
abbrev pub granted : List Text → Result (List Text)
granted [] = err bad_request
granted (x ∷ xs) = ok (x ∷ xs)

-- `requestedScope` that is null stands for all that the client allows.
abbrev pub requested_or : Option Text → List Text → List Text
requested_or none allowed = allowed
requested_or (some s) allowed = parse (some s)

-- `ScopeResolverService.resolveScopes`
unfoldable pub resolve_scopes : Option Text → Option Text → Result (List Text)
unfolding parse intersect
resolve_scopes requested client_allowed =
    let allowed = parse client_allowed in
    granted (intersect (requested_or requested allowed) allowed)
