-- ===== src/Prompt/Silent.antt =====
-- Silent authentication, and the `auth_time` claim.
use identity_ghost.Prelude.{
  ℕ, ◌+◌, ◌/◌, ◌≤◌, ◌≡◌, ◌≢◌, ◌↔◌, refl, Bool, true, false, ◌&&◌, ◌||◌, not, none, some, List, [],
  ◌∷◌, arith, Text, text, ◌==◌, includes, Option-cases, Bool-cases, inl, inr, subst, eq_of_==,
  ==_of_eq,
}
use identity_ghost.Session.{LoginSession}
use identity_ghost.Prompt.{
  PromptContext, evaluate, evaluate_silent, is_stale, is_session_fresh, collect, parse_prompt,
  prompt_words, recognized_prompt_values,
}

-- Under `prompt=none` there is no error exactly when there is a session, it is not too old for
-- `max_age`, and consent is not known to be missing; a `max_age` of 0 restricts nothing here.
pub evaluate-silent_iff :
    (now : ℕ) (context : PromptContext)
    → includes context.prompt_values (text "none") ≡ true
    → ((evaluate now context).error ≡ none) ↔ (
        (context.consent_granted ≢ some false)
        × ((s : LoginSession) × (context.session ≡ some s)
            × ((n : ℕ) → context.max_age ≡ some n → n ≢ 0 → now / 1000 ≤ s.auth_time + n)))
unfolding evaluate evaluate_silent is_stale is_session_fresh
evaluate-silent_iff now context silent = (
  (λ fine. (
    (λ missing. elim (Option-cases context.session) [
      | inl gone ↦ ground arith
      | inr (s, here) ↦ ground arith
    ]),
    elim (Option-cases context.session) [
      | inl gone ↦ absurd (ground arith)
      | inr (s, here) ↦ (s, here, λ n given nonzero. ground arith)
    ],
  )),
  λ (asked, (s, here, fresh)). elim (Option-cases context.max_age) [
    | inl free ↦ ground arith
    | inr (n, given) ↦ let recent = fresh n given in ground arith
  ],
)

-- Whatever the request, where `max_age` is given and there is no error, `auth_time` is required.
pub evaluate-require_auth_time :
    (now : ℕ) (context : PromptContext) {n : ℕ}
    → context.max_age ≡ some n
    → (evaluate now context).error ≡ none
    → (evaluate now context).require_auth_time ≡ true
unfolding evaluate evaluate_silent
evaluate-require_auth_time now context aged fine = elim (Option-cases context.session) [
  | inl gone ↦ ground arith
  | inr (s, here) ↦ ground arith
]

dropped_lem :
    (r i n o : Bool) {x : Bool} → (r && n) ≡ false → x ≡ (r && i && n) → x ≡ (r && (true || o) && n)
dropped_lem r i n o none_left h = ground arith

includes-collect_head :
    (seen vs : List Text) (v : Text)
    → includes (collect seen vs) v
      ≡ (includes recognized_prompt_values v && includes vs v && not (includes seen v))
    → includes (collect seen (v ∷ vs)) v
      ≡ (includes recognized_prompt_values v && includes (v ∷ vs) v && not (includes seen v))
includes-collect_head seen vs v h =
    elim (Bool-cases (includes recognized_prompt_values v && not (includes seen v))) [
      | inl kept ↦ rw (kept, collect, ==_of_eq v v refl) (ground arith)
      | inr dropped ↦
          rw (dropped, collect, ==_of_eq v v refl)
            (dropped_lem _ (includes vs v) _ (includes vs v) dropped h)
    ]

includes-collect :
    (seen vs : List Text) (a : Text)
    → includes (collect seen vs) a
      ≡ (includes recognized_prompt_values a && includes vs a && not (includes seen a))
includes-collect seen [] a = ground arith
includes-collect seen (v ∷ vs) a = elim (Bool-cases (v == a)) [
  | inl same ↦
      subst
        (λ b.
          includes (collect seen (v ∷ vs)) b
          ≡ (includes recognized_prompt_values b && includes (v ∷ vs) b && not (includes seen b)))
        (eq_of_== v a same) (includes-collect_head seen vs v (includes-collect seen vs v))
  | inr other ↦ ground (arith, includes-collect (v ∷ seen) vs a, includes-collect seen vs a)
]

-- The parsed values are the recognized ones among the words of the parameter.
pub includes-parse_prompt :
    (s a : Text)
    → includes (parse_prompt (some s)) a
      ≡ (includes recognized_prompt_values a && includes (prompt_words s) a)
unfolding parse_prompt
includes-parse_prompt s a = let all_of = includes-collect [] (prompt_words s) a in ground arith
