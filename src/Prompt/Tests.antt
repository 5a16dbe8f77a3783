-- ===== src/Prompt/Tests.antt =====
-- A silent request with a session of a thousand seconds.
use identity_ghost.Prelude.{
  ℕ, ◌+◌, ◌/◌, ◌≤◌, ◌≡◌, ◌≢◌, ◌↔◌, refl, true, false, none, some, [], ◌∷◌, text, Text-discrete,
}
use identity_ghost.Session.{LoginSession}
use identity_ghost.Prompt.{PromptContext, evaluate}
use identity_ghost.Prompt.Silent.{evaluate-silent_iff}

abbrev old_session : LoginSession
old_session = record {
  sid = text "s";
  user_id = text "u";
  tenant_id = text "t";
  auth_time = 0;
  expires_at = 9000000;
  invalidated_at = none;
}

-- The request asks for a login just now.
abbrev silent_context : PromptContext
silent_context = record {
  prompt_values = text "none" ∷ [];
  max_age = some 0;
  session = some old_session;
  consent_granted = some true;
}

evaluate-silent_iff_example : ((evaluate 1000000 silent_context).error ≡ none) ↔ (
    (silent_context.consent_granted ≢ some false)
    × ((s : LoginSession) × (silent_context.session ≡ some s)
        × ((n : ℕ) → silent_context.max_age ≡ some n → n ≢ 0 → 1000000 / 1000 ≤ s.auth_time + n)))
unfolding Text-discrete
evaluate-silent_iff_example = evaluate-silent_iff 1000000 silent_context refl
