-- ===== src/Session/Validity.antt =====
-- The acceptance of sessions, and their end.
use identity_ghost.Prelude.{
  ℕ, ◌+◌, ◌*◌, ◌≤◌, ◌≡◌, ◌≢◌, ◌↔◌, refl, subst, true, Option, none, some, List, [], ◌∷◌, arith,
  filter, find, find-append_none, All, All-imp, leb, Text, ==_of_eq, Bool-cases, Option-cases, inl,
  inr,
}
use identity_ghost.Errors.{ok, err, oauth, invalid_grant}
use identity_ghost.Session.{
  LoginSession, Table, has_sid, new_session, create_session, validate_session, invalidate_session,
  is_active, later_of, latest, find_valid_session, find_session_by_sid, invalidate_all_sessions,
}

-- `validateSession` and `findSessionBySid` accept the same sessions.
pub validate-find_session_by_sid :
    (sid : Text) (now : ℕ) (t : Table) (s : LoginSession)
    → (validate_session sid now t ≡ ok s) ↔ (find_session_by_sid sid now t ≡ some s)
unfolding validate_session find_session_by_sid
validate-find_session_by_sid sid now t s = (λ h. ground arith, λ h. ground arith)

-- A session is accepted exactly when the table's row for the id is neither invalidated nor expired.
pub find_session_by_sid-eq-some_iff :
    (sid : Text) (now : ℕ) (t : Table) (s : LoginSession)
    → (find_session_by_sid sid now t ≡ some s)
      ↔ ((find (has_sid sid) t ≡ some s) × (s.invalidated_at ≡ none) × (now ≤ s.expires_at))
unfolding find_session_by_sid
find_session_by_sid-eq-some_iff sid now t s =
    (λ h. (ground arith, ground arith, ground arith), λ h. ground arith)

-- A new session with an unused id is accepted until it expires, as the session of its user and tenant.
pub created_found :
    (sid user tenant : Text) (now later duration at : ℕ) (t : Table)
    → find (has_sid sid) t ≡ none
    → at ≤ later + duration * 1000
    → let (s, t') = create_session sid user tenant now later duration t in
      (find_session_by_sid sid at t' ≡ some s) × (s.user_id ≡ user) × (s.tenant_id ≡ tenant)
unfolding create_session find_session_by_sid new_session
created_found sid user tenant now later duration at t free h =
    let s = new_session sid user tenant now later duration in
    let found = find-append_none (has_sid sid) t (s ∷ []) free in
    (ground (arith, found, ==_of_eq sid sid refl), refl, refl)

find-invalidate_session :
    (sid : Text) (now : ℕ) (t : Table) (s : LoginSession)
    → find (has_sid sid) (invalidate_session sid now t) ≡ some s
    → s.invalidated_at ≡ some now
unfolding invalidate_session
find-invalidate_session sid now [] s h = cc
find-invalidate_session sid now (r ∷ t) s h = ground (arith, find-invalidate_session sid now t s)

-- An invalidated session is never accepted again, at whatever time.
pub invalidated_refused :
    (sid : Text) (now at : ℕ) (t : Table)
    → (find_session_by_sid sid at (invalidate_session sid now t) ≡ none)
      × (validate_session sid at (invalidate_session sid now t) ≡ err (oauth invalid_grant))
unfolding find_session_by_sid validate_session
invalidated_refused sid now at t =
    elim (Option-cases (find (has_sid sid) (invalidate_session sid now t))) [
      | inl missing ↦ (rw (missing, find_session_by_sid), rw (missing, validate_session))
      | inr (s, found) ↦
          let ended = find-invalidate_session sid now t s found in
          (rw (found, find_session_by_sid, ended), rw (found, validate_session, ended))
    ]

find-invalidate_other :
    (sid other : Text) (now : ℕ) (t : Table)
    → other ≢ sid
    → find (has_sid other) (invalidate_session sid now t) ≡ find (has_sid other) t
unfolding invalidate_session
find-invalidate_other sid other now [] ne = refl
find-invalidate_other sid other now (s ∷ t) ne =
    ground (arith, find-invalidate_other sid other now t ne)

-- Ending one session leaves every other session as it was.
pub invalidate_others :
    (sid other : Text) (now at : ℕ) (t : Table)
    → other ≢ sid
    → find_session_by_sid other at (invalidate_session sid now t) ≡ find_session_by_sid other at t
unfolding find_session_by_sid
invalidate_others sid other now at t ne = ground (arith, find-invalidate_other sid other now t ne)

filter-invalidate_all :
    (user tenant : Text) (now : ℕ) (t : Table)
    → filter (is_active user tenant) (invalidate_all_sessions user tenant now t) ≡ []
unfolding invalidate_all_sessions
filter-invalidate_all user tenant now [] = refl
filter-invalidate_all user tenant now (s ∷ t) =
    ground (arith, filter-invalidate_all user tenant now t)

-- After a forced login no session of the user in the tenant is found, at whatever time.
pub all_invalidated :
    (user tenant : Text) (now at : ℕ) (t : Table)
    → find_valid_session user tenant at (invalidate_all_sessions user tenant now t) ≡ none
unfolding find_valid_session latest
all_invalidated user tenant now at t =
    rw (filter-invalidate_all user tenant now t, find_valid_session)

later_of-ne-none : (s : LoginSession) (o : Option LoginSession) → later_of s o ≢ none
later_of-ne-none s none h = cc
later_of-ne-none s (some r) h = ground arith

latest-ge :
    (l : List LoginSession) (s : LoginSession)
    → latest l ≡ some s
    → All (λ r. r.auth_time ≤ s.auth_time) l
unfolding latest
latest-ge [] s h = tt
latest-ge (r ∷ l) s h = elim (Option-cases (latest l)) [
  | inl empty ↦ (ground arith, latest-empty l s empty)
  | inr (m, found) ↦
      let below = latest-ge l m found in
      elim (Bool-cases (leb m.auth_time r.auth_time)) [
        | inl newer ↦
            let same : r ≡ s = ground arith in
            (ground arith, All-imp _ _ l (λ x h'. ground arith) below)
        | inr older ↦
            let same : m ≡ s = ground arith in
            (ground arith, All-imp _ _ l (λ x h'. ground arith) below)
      ]
]
  where
    latest-empty :
        (k : List LoginSession) (u : LoginSession)
        → latest k ≡ none
        → All (λ x. x.auth_time ≤ u.auth_time) k
    latest-empty [] u e = tt
    latest-empty (x ∷ k) u e = absurd (later_of-ne-none x (latest k) e)

latest-All {κ} :
    (P : LoginSession → Type κ) (l : List LoginSession) (s : LoginSession)
    → All P l
    → latest l ≡ some s
    → P s
unfolding latest
latest-All P [] s p h = cc
latest-All P (r ∷ l) s p h = elim (Option-cases (latest l)) [
  | inl empty ↦ let same : r ≡ s = ground arith in subst P same p.0
  | inr (m, found) ↦ elim (Bool-cases (leb m.auth_time r.auth_time)) [
    | inl newer ↦ let same : r ≡ s = ground arith in subst P same p.0
    | inr older ↦ let same : m ≡ s = ground arith in subst P same (latest-All P l m p.1 found)
  ]
]

filter-is_active :
    (user tenant : Text) (t : Table)
    → All (λ s. is_active user tenant s ≡ true) (filter (is_active user tenant) t)
filter-is_active user tenant [] = tt
filter-is_active user tenant (s ∷ t) = elim (Bool-cases (is_active user tenant s)) [
  | inl kept ↦ rw kept (kept, filter-is_active user tenant t)
  | inr dropped ↦ rw dropped (filter-is_active user tenant t)
]

-- The session that is found for a user in a tenant is theirs, is neither invalidated nor expired,
-- and none of their other sessions that are not invalidated began later.
pub find_valid_session_sound :
    (user tenant : Text) (now : ℕ) (t : Table) (s : LoginSession)
    → find_valid_session user tenant now t ≡ some s
    → (s.user_id ≡ user)
      × (s.tenant_id ≡ tenant)
      × (s.invalidated_at ≡ none)
      × (now ≤ s.expires_at)
      × All (λ r. r.auth_time ≤ s.auth_time) (filter (is_active user tenant) t)
unfolding find_valid_session
find_valid_session_sound user tenant now t s h =
    elim (Option-cases (latest (filter (is_active user tenant) t))) [
      | inl empty ↦ let bad = rw (empty, find_valid_session) at h in absurd (ground arith)
      | inr (m, found) ↦
          let got = rw (found, find_valid_session) at h in
          let same : m ≡ s = ground arith in
          let active : is_active user tenant s ≡ true =
            subst (λ x. is_active user tenant x ≡ true) same
              (latest-All _ _ m (filter-is_active user tenant t) found) in
          (
            ground arith,
            ground arith,
            ground arith,
            ground arith,
            subst (λ x. All (λ r. r.auth_time ≤ x.auth_time) (filter (is_active user tenant) t))
                same (latest-ge _ m found),
          )
    ]
