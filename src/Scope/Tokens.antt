-- ===== src/Scope/Tokens.antt =====
-- Splitting a text that was joined from scope tokens gives the tokens back.
use identity_ghost.Prelude.{
  ℕ, ◌≡◌, refl, ap, ◌∙◌, true, false, List, [], ◌∷◌, ◌++◌, arith, Bool-cases, inl, inr, Text,
  is_blank, push_head, starts_with, All, is_space, split_runs, trim, trim_start, trim_end,
  join_space,
}
use identity_ghost.Scope.{is_separator}

-- A text with no separator in it.
abbrev pub IsSolid : Text → Type 0
IsSolid w = All (λ c. is_separator c ≡ false) w

-- A scope token: not empty, and no separator in it.
abbrev pub IsToken : Text → Type 0
IsToken w = (is_blank w ≡ false) × IsSolid w

push_head-IsSolid :
    (c : ℕ) (ws : List Text)
    → is_separator c ≡ false
    → All IsSolid ws
    → All IsSolid (push_head c ws)
push_head-IsSolid c [] h k = ((h, tt), tt)
push_head-IsSolid c (w ∷ ws) h k = ((h, k.0), k.1)

pub split_runs-IsSolid : (s : Text) → All IsSolid (split_runs is_separator s)
unfolding split_runs
split_runs-IsSolid [] = (tt, tt)
split_runs-IsSolid (x ∷ s) = elim (Bool-cases (is_separator x)) [
  | inl sep ↦ elim (Bool-cases (starts_with is_separator s)) [
    | inl more ↦ rw (sep, more) (split_runs-IsSolid s)
    | inr last ↦ rw (sep, last) (tt, split_runs-IsSolid s)
  ]
  | inr solid ↦ rw solid (push_head-IsSolid x _ solid (split_runs-IsSolid s))
]

split_runs_of_IsSolid : (w : Text) → IsSolid w → split_runs is_separator w ≡ w ∷ []
unfolding split_runs
split_runs_of_IsSolid [] h = refl
split_runs_of_IsSolid (x ∷ w) h = rw (h.0, split_runs_of_IsSolid w h.1)

separator_space : is_separator b' ' ≡ true
unfolding is_space
separator_space = refl

is_space_of_solid : (c : ℕ) → is_separator c ≡ false → is_space c ≡ false
is_space_of_solid c h = ground arith

split_runs-append_space :
    (w s : Text)
    → IsSolid w
    → starts_with is_separator s ≡ false
    → split_runs is_separator (w ++ b' ' ∷ s) ≡ w ∷ split_runs is_separator s
unfolding split_runs
split_runs-append_space [] s h k = rw (separator_space, k)
split_runs-append_space (x ∷ w) s h k = rw (h.0, split_runs-append_space w s h.1 k)

join_space-starts :
    (w : Text) (ws : List Text) → IsToken w → starts_with is_separator (join_space (w ∷ ws)) ≡ false
unfolding join_space
join_space-starts [] ws h = cc
join_space-starts (x ∷ w) [] h = h.1.0
join_space-starts (x ∷ w) (v ∷ ws) h = h.1.0

-- Splitting undoes joining.
pub split_runs-join_space :
    (w : Text) (ws : List Text)
    → All IsToken (w ∷ ws)
    → split_runs is_separator (join_space (w ∷ ws)) ≡ w ∷ ws
unfolding join_space
split_runs-join_space w [] h = split_runs_of_IsSolid w h.0.1
split_runs-join_space w (v ∷ ws) h =
    split_runs-append_space w (join_space (v ∷ ws)) h.0.1 (join_space-starts v ws h.1.0)
    ∙ ap (λ r. w ∷ r) (split_runs-join_space v ws h.1)

is_blank-append : (s t : Text) → is_blank t ≡ false → is_blank (s ++ t) ≡ false
is_blank-append [] t h = h
is_blank-append (x ∷ s) t h = refl

trim_end-append : (s t : Text) → is_blank t ≡ false → trim_end t ≡ t → trim_end (s ++ t) ≡ s ++ t
trim_end-append [] t h k = k
trim_end-append (x ∷ s) t h k = rw (trim_end-append s t h k, is_blank-append s t h)

trim_end_of_IsSolid : (w : Text) → IsSolid w → trim_end w ≡ w
trim_end_of_IsSolid [] h = refl
trim_end_of_IsSolid (x ∷ w) h =
    rw (trim_end_of_IsSolid w h.1) (ground (arith, is_space_of_solid x h.0))

pub is_blank-join_space :
    (w : Text) (ws : List Text) → IsToken w → is_blank (join_space (w ∷ ws)) ≡ false
unfolding join_space
is_blank-join_space [] ws h = cc
is_blank-join_space (x ∷ w) [] h = refl
is_blank-join_space (x ∷ w) (v ∷ ws) h = refl

trim_end-join_space :
    (w : Text) (ws : List Text)
    → All IsToken (w ∷ ws)
    → trim_end (join_space (w ∷ ws)) ≡ join_space (w ∷ ws)
unfolding join_space
trim_end-join_space w [] h = trim_end_of_IsSolid w h.0.1
trim_end-join_space w (v ∷ ws) h =
    trim_end-append w _ refl (rw (trim_end-join_space v ws h.1, is_blank-join_space v ws h.1.0))

trim_start-join_space :
    (w : Text) (ws : List Text) → IsToken w → trim_start (join_space (w ∷ ws)) ≡ join_space (w ∷ ws)
unfolding join_space
trim_start-join_space [] ws h = cc
trim_start-join_space (x ∷ w) [] h = rw (is_space_of_solid x h.1.0)
trim_start-join_space (x ∷ w) (v ∷ ws) h = rw (is_space_of_solid x h.1.0)

-- Trimming a joined text changes nothing.
pub trim-join_space :
    (w : Text) (ws : List Text)
    → All IsToken (w ∷ ws)
    → trim (join_space (w ∷ ws)) ≡ join_space (w ∷ ws)
unfolding trim
trim-join_space w ws h = rw (trim_start-join_space w ws h.0) (trim_end-join_space w ws h)
