-- ===== src/Prompt.antt =====
-- srv/src/auth/prompt.service.ts: what `prompt` and `max_age` ask for.
pub mod Silent
mod Tests
use identity_ghost.Prelude.{
  ℕ, ◌+◌, ◌/◌, Bool, true, false, ◌&&◌, ◌||◌, not, Option, none, some, List, [], ◌∷◌, ltb, leb, eqb,
  length, if◌then◌else◌, is_some, filter, Text, text, includes, split_on,
}
use identity_ghost.Errors.{
  ErrorCode, login_required, consent_required, Result, ok, err, oauth, invalid_request,
}
use identity_ghost.Scope.{is_nonempty}
use identity_ghost.Session.{LoginSession}

pub data PromptAction : Type 0 where
  proceed force_login force_consent issue_code : PromptAction

pub record PromptEvaluation : Type 0 where
  pub action : PromptAction
  pub require_auth_time : Bool
  pub error : Option ErrorCode

-- `consent_granted` is none where the caller does not say.
pub record PromptContext : Type 0 where
  pub prompt_values : List Text
  pub max_age : Option ℕ
  pub session : Option LoginSession
  pub consent_granted : Option Bool

abbrev pub recognized_prompt_values : List Text
recognized_prompt_values = text "none" ∷ text "login" ∷ text "consent" ∷ text "select_account" ∷ []

-- The loop of `parsePrompt`, with the values that it has seen.
abbrev pub collect : List Text → List Text → List Text
collect seen [] = []
collect seen (v ∷ vs) = elim (includes recognized_prompt_values v && not (includes seen v)) [
  | true ↦ v ∷ collect (v ∷ seen) vs
  | false ↦ collect seen vs
]

-- `prompt.split(" ").filter(v => v.length > 0)`
abbrev pub prompt_words : Text → List Text
prompt_words s = filter is_nonempty (split_on b' ' s)

unfoldable pub parse_prompt : Option Text → List Text
unfolding split_on
parse_prompt none = []
parse_prompt (some s) = collect [] (prompt_words s)

unfoldable pub validate_prompt : List Text → Result (Unit {0})
validate_prompt values =
    if includes values (text "none") && ltb 1 (length values)
    then err (oauth invalid_request)
    else ok tt

-- `now - session.authTime <= maxAge` in seconds, on integers.
unfoldable pub is_session_fresh : ℕ → LoginSession → ℕ → Bool
is_session_fresh now session max_age = leb (now / 1000) (session.auth_time + max_age)

-- `maxAge !== undefined && maxAge > 0 && !isSessionFresh(session, maxAge)`
unfoldable pub is_stale : ℕ → LoginSession → Option ℕ → Bool
unfolding is_session_fresh
is_stale now session none = false
is_stale now session (some max_age) = ltb 0 max_age && not (is_session_fresh now session max_age)

abbrev pub refuse : ErrorCode → PromptEvaluation
refuse e = record { action = issue_code; require_auth_time = false; error = some e }

abbrev pub act : PromptAction → Bool → PromptEvaluation
act a require = record { action = a; require_auth_time = require; error = none }

-- The first part of `evaluate`, under `prompt=none`.
unfoldable pub evaluate_silent : ℕ → PromptContext → PromptEvaluation
unfolding is_stale
evaluate_silent now context = elim context.session [
  | none ↦ refuse login_required
  | some session ↦
      if is_stale now session context.max_age
      then refuse login_required
      else elim context.consent_granted [
        | some false ↦ refuse consent_required
        | _ ↦ act issue_code (is_some context.max_age)
      ]
]

abbrev is_zero : Option ℕ → Bool
is_zero none = false
is_zero (some n) = eqb n 0

abbrev is_stale_session : ℕ → Option LoginSession → Option ℕ → Bool
is_stale_session now none max_age = false
is_stale_session now (some session) max_age = is_stale now session max_age

unfoldable pub evaluate : ℕ → PromptContext → PromptEvaluation
unfolding evaluate_silent is_stale
evaluate now context =
    if includes context.prompt_values (text "none")
    then evaluate_silent now context
    else if includes context.prompt_values (text "consent")
    then act force_consent
        (includes context.prompt_values (text "login") || is_some context.max_age)
    else if includes context.prompt_values (text "login") || is_zero context.max_age
    then act force_login true
    else if is_stale_session now context.session context.max_age
    then act force_login true
    else act proceed (is_some context.max_age)
