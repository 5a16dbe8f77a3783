-- ===== src/Prelude/Words.antt =====
-- Splitting, trimming and joining texts, as the string methods of JavaScript do.
use Prim.Native.Nat.{ℕ, zero, suc, ◌+◌, ◌/◌, ◌%◌}
use mathlib.Core.Bool.{Bool, false, ◌&&◌, ◌||◌}
use mathlib.Core.List.{List, [], ◌∷◌, ◌++◌}
use identity_ghost.Prelude.Tests.{leb, ltb, eqb, if◌then◌else◌}
use identity_ghost.Prelude.Texts.{Text, is_blank}

-- White space and line terminators: what `trim` removes and `\s` matches.
unfoldable pub is_space : ℕ → Bool
is_space c =
    (leb 9 c && leb c 13)
    || eqb c 32
    || eqb c 160
    || eqb c 5760
    || (leb 8192 c && leb c 8202)
    || eqb c 8232
    || eqb c 8233
    || eqb c 8239
    || eqb c 8287
    || eqb c 12288
    || eqb c 65279

abbrev pub push_head : ℕ → List Text → List Text
push_head c [] = (c ∷ []) ∷ []
push_head c (w ∷ ws) = (c ∷ w) ∷ ws

-- `s.split(c)` for a single character.
unfoldable pub split_on : ℕ → Text → List Text
split_on c [] = [] ∷ []
split_on c (x ∷ s) = let rest = split_on c s in if eqb x c then [] ∷ rest else push_head x rest

abbrev pub starts_with : (ℕ → Bool) → Text → Bool
starts_with p [] = false
starts_with p (x ∷ s) = p x

-- `s.split(/[…]+/)`: each maximal run of separators divides once.
unfoldable pub split_runs : (ℕ → Bool) → Text → List Text
split_runs p [] = [] ∷ []
split_runs p (x ∷ s) =
    let rest = split_runs p s in
    if p x then (if starts_with p s then rest else [] ∷ rest) else push_head x rest

abbrev pub trim_start : Text → Text
trim_start [] = []
trim_start (x ∷ s) = let rest = trim_start s in if is_space x then rest else x ∷ s

abbrev pub trim_end : Text → Text
trim_end [] = []
trim_end (x ∷ s) = let rest = trim_end s in if is_blank rest && is_space x then [] else x ∷ rest

unfoldable pub trim : Text → Text
unfolding is_space
trim s = trim_end (trim_start s)

-- `ws.join(' ')`
unfoldable pub join_space : List Text → Text
join_space [] = []
join_space (w ∷ []) = w
join_space (w ∷ v ∷ ws) = w ++ b' ' ∷ join_space (v ∷ ws)

-- The decimal digits of a number, as a template literal writes it; the fuel bounds their count.
digits : ℕ → ℕ → Text
digits zero n = []
digits (suc fuel) n =
    let rest = digits fuel (n / 10) in
    if ltb n 10 then (48 + n) ∷ [] else rest ++ (48 + n % 10) ∷ []

unfoldable pub decimal : ℕ → Text
unfolding digits
decimal n = digits (suc n) n

-- `parseInt` of a setting.
pub data Parsed : Type 0 where
  not_a_number negative : Parsed
  number : ℕ → Parsed
