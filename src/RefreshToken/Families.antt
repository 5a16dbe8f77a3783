-- ===== src/RefreshToken/Families.antt =====
-- The methods as a step relation, and what a revoked family is after any of its steps.
use identity_ghost.Prelude.{
  ℕ, ◌≡◌, ◌≢◌, refl, sym, ◌∙◌, Bool, true, Option, some, [], ◌∷◌, ◌++◌, arith, any, update_where,
  All, All-append, All-update_where, find-All, Text, ◌==◌, Option-cases, inl, inr, Bool-cases,
  is_some, eq_of_==,
}
use identity_ghost.Errors.{Result, ok, err, oauth, invalid_grant, Result-cases}
use identity_ghost.RefreshToken.{
  RefreshToken, Table, is_unused, use_at, revoke, Config, RotateParams, CreateParams, Fresh,
  Verdict, reject, replay, consume, revoke_family, revoke_by_sid, revoke_by_token, mark_used,
  by_token, by_id, handle_replay, grace_child, screen, proceed, save, issue, same_parent, first_row,
  create, child_row, granted_scope, rotate, after_update, consume_and_rotate,
}
use identity_ghost.RefreshToken.Rotation.{screen-eq-consume}
use identity_ghost.RefreshToken.Replay.{IsDeadRow, IsDead, revoke_family-IsDead, revoked_refused}

-- The family has a row.
abbrev pub Has : Text → Table → Type 0
Has family t = any (λ r. r.family_id == family) t ≡ true

-- The family has been founded and every row of it is revoked.
abbrev pub IsGone : Text → Table → Type 0
IsGone family t = Has family t × IsDead family t

Has-update_where :
    (family : Text) (q : RefreshToken → Bool) (f : RefreshToken → RefreshToken) (t : Table)
    → ((r : RefreshToken) → (f r).family_id ≡ r.family_id)
    → Has family t
    → Has family (update_where q f t)
Has-update_where family q f [] h k = k
Has-update_where family q f (r ∷ t) h k = ground (arith, h r, Has-update_where family q f t h)

Has-append : (family : Text) (t s : Table) → Has family t → Has family (t ++ s)
Has-append family [] s h = cc
Has-append family (r ∷ t) s h = ground (arith, Has-append family t s)

revoke-IsGone :
    (family : Text) (q : RefreshToken → Bool) (t : Table)
    → IsGone family t
    → IsGone family (update_where q revoke t)
revoke-IsGone family q t (has, dead) = (
  Has-update_where family q revoke t (λ r. refl) has,
  All-update_where (IsDeadRow family) q revoke t (λ r h e. refl) dead,
)

mark_used-IsGone :
    (family id : Text) (now : ℕ) (t : Table) → IsGone family t → IsGone family (mark_used id now t)
unfolding mark_used
mark_used-IsGone family id now t (has, dead) = (
  Has-update_where family (is_unused id) (use_at now) t (λ r. refl) has,
  All-update_where (IsDeadRow family) (is_unused id) (use_at now) t (λ r h. h) dead,
)

save-IsGone :
    (family : Text) (row : RefreshToken) (t : Table)
    → row.family_id ≢ family
    → IsGone family t
    → IsGone family (save row t).1
unfolding save
save-IsGone family row t other (has, dead) = elim (Bool-cases (any (same_parent row.parent_id) t)) [
  | inl clash ↦ rw clash (has, dead)
  | inr free ↦ rw free (
    Has-append family t _ has,
    All-append (IsDeadRow family) t (row ∷ []) dead ((λ e. absurd (other e)), tt),
  )
]

issue-IsGone :
    (family plaintext : Text) (row : RefreshToken) (s : Result (Unit {0}) × Table)
    → IsGone family s.1
    → IsGone family (issue plaintext row s).1
issue-IsGone family plaintext row (ok _, t) g = g
issue-IsGone family plaintext row (err _, t) g = g

-- A family with a row is not a new one.
Has-ne-new :
    (family new : Text) (t : Table) → Has family t → All (λ r. r.family_id ≢ new) t → new ≢ family
Has-ne-new family new [] h k e = cc
Has-ne-new family new (r ∷ t) h k e = elim (Bool-cases (r.family_id == family)) [
  | inl same ↦ k.0 (eq_of_== _ _ same ∙ sym e)
  | inr other ↦ Has-ne-new family new t (ground arith) k.1 e
]

module _ (hash : Text → Text) (config : Config) where
  handle_replay-IsGone :
      (family : Text) (e : RefreshToken) (plaintext : Text) (later : ℕ) (t : Table)
      → IsGone family t
      → IsGone family (handle_replay hash config e plaintext later t).1
  unfolding handle_replay revoke_family
  handle_replay-IsGone family e plaintext later t g =
      elim (Option-cases (grace_child hash config e e.used_at later t)) [
        | inl shut ↦ rw (shut, handle_replay) (revoke-IsGone family _ t g)
        | inr (child, found) ↦ rw (found, handle_replay) g
      ]

  rotate-IsGone :
      (family : Text) (e : RefreshToken) (requested : Option Text) (fresh : Fresh) (later : ℕ)
      (t : Table)
      → e.family_id ≢ family
      → IsGone family t
      → IsGone family (rotate hash config e requested fresh later t).1
  unfolding rotate child_row
  rotate-IsGone family e requested fresh later t other g =
      elim (Result-cases (granted_scope hash config requested e)) [
        | inl (scope, fine) ↦
            let row = child_row hash config e scope fresh later in
            rw (fine, rotate)
              (issue-IsGone family fresh.plaintext row (save row t)
                (save-IsGone family row t other g))
        | inr (x, failed) ↦ rw (failed, rotate) g
      ]

  after_update-IsGone :
      (family : Text) (e : RefreshToken) (p : RotateParams) (fresh : Fresh) (later : ℕ) (t : Table)
      → e.family_id ≢ family
      → IsGone family t
      → IsGone family (after_update hash config e p fresh later t).1
  unfolding after_update
  after_update-IsGone family e p fresh later t other g = elim (Option-cases (by_id e.id t)) [
    | inl gone ↦ rw (gone, after_update) (handle_replay-IsGone family e p.plaintext_token later t g)
    | inr (row, found) ↦ elim (Bool-cases (is_some row.used_at)) [
      | inl landed ↦
          rw (found, after_update, landed)
            (rotate-IsGone family e p.requested_scope fresh later t other g)
      | inr lost ↦
          rw (found, after_update, lost) (handle_replay-IsGone family e p.plaintext_token later t g)
    ]
  ]

  proceed-IsGone :
      (family : Text) (d : Verdict) (e : RefreshToken) (p : RotateParams) (fresh : Fresh)
      (now later : ℕ) (t : Table)
      → (d ≡ consume → e.family_id ≢ family)
      → IsGone family t
      → IsGone family (proceed hash config d e p fresh now later t).1
  unfolding proceed
  proceed-IsGone family reject e p fresh now later t other g = g
  proceed-IsGone family replay e p fresh now later t other g =
      handle_replay-IsGone family e p.plaintext_token later t g
  proceed-IsGone family consume e p fresh now later t other g =
      after_update-IsGone family e p fresh later (mark_used e.id now t) (other refl)
        (mark_used-IsGone family e.id now t g)

  consume_and_rotate-IsGone :
      (family : Text) (p : RotateParams) (fresh : Fresh) (now later : ℕ) (t : Table)
      → IsGone family t
      → IsGone family (consume_and_rotate hash config p fresh now later t).1
  unfolding consume_and_rotate
  consume_and_rotate-IsGone family p fresh now later t g =
      elim (Option-cases (by_token hash config p.plaintext_token t)) [
        | inl missing ↦ rw (missing, consume_and_rotate) g
        | inr (e, found) ↦
            let dead : IsDeadRow family e = find-All _ (IsDeadRow family) t g.1 found in
            rw (found, consume_and_rotate)
              (proceed-IsGone family (screen e p.client_id now) e p fresh now later t
                (λ d mine.
                  let alive = (screen-eq-consume e p.client_id now d).0 in
                  let gone = dead mine in absurd (ground arith))
                g)
      ]

  -- One call of a method; a new family has an id that no row has.
  pub data Step (t : Table) : Table → Type 0 where
    created :
        (p : CreateParams) (fresh : Fresh) (now later : ℕ)
        → All (λ r. r.family_id ≢ fresh.family) t
        → Step t (create hash config p fresh now later t).1
    rotated :
        (p : RotateParams) (fresh : Fresh) (now later : ℕ)
        → Step t (consume_and_rotate hash config p fresh now later t).1
    family_revoked : (family : Text) → Step t (revoke_family family t)
    session_revoked : (sid : Text) → Step t (revoke_by_sid sid t)
    token_revoked : (plaintext : Text) → Step t (revoke_by_token hash config plaintext t)

  pub data Reach (t : Table) : Table → Type 0 where
    here : Reach t t
    next : {u v : Table} → Reach t u → Step u v → Reach t v

  revoke_by_token-IsGone :
      (family plaintext : Text) (t : Table)
      → IsGone family t
      → IsGone family (revoke_by_token hash config plaintext t)
  unfolding revoke_by_token revoke_family
  revoke_by_token-IsGone family plaintext t g =
      elim (Option-cases (by_token hash config plaintext t)) [
        | inl missing ↦ rw (missing, revoke_by_token) g
        | inr (e, found) ↦ rw (found, revoke_by_token) (revoke-IsGone family _ t g)
      ]

  Step-IsGone : (family : Text) {t u : Table} → Step t u → IsGone family t → IsGone family u
  unfolding revoke_family revoke_by_sid create first_row
  Step-IsGone family {t} (created p fresh now later new) g =
      let row = first_row hash config p fresh now later in
      issue-IsGone family fresh.plaintext row (save row t)
        (save-IsGone family row t (Has-ne-new family fresh.family t g.0 new) g)
  Step-IsGone family {t} (rotated p fresh now later) g =
      consume_and_rotate-IsGone family p fresh now later t g
  Step-IsGone family {t} (family_revoked f) g = revoke-IsGone family _ t g
  Step-IsGone family {t} (session_revoked sid) g = revoke-IsGone family _ t g
  Step-IsGone family {t} (token_revoked plaintext) g = revoke_by_token-IsGone family plaintext t g

  Reach-IsGone : (family : Text) {t u : Table} → IsGone family t → Reach t u → IsGone family u
  Reach-IsGone family g here = g
  Reach-IsGone family g (next r s) = Step-IsGone family s (Reach-IsGone family g r)

  -- Once a family with a row has been revoked, then after any sequence of calls a token of that
  -- family is refused and the table stays as it is.
  pub revoked_for_ever :
      (family : Text) (t : Table) {u : Table} {e : RefreshToken} (p : RotateParams) (fresh : Fresh)
      (now later : ℕ)
      → Has family t
      → Reach (revoke_family family t) u
      → by_token hash config p.plaintext_token u ≡ some e
      → e.family_id ≡ family
      → consume_and_rotate hash config p fresh now later u ≡ (err (oauth invalid_grant), u)
  unfolding revoke_family
  revoked_for_ever family t {u} {e} p fresh now later has r found mine =
      let start : IsGone family (revoke_family family t) =
        (Has-update_where family _ revoke t (λ s. refl) has, revoke_family-IsDead family t) in
      let gone = Reach-IsGone family start r in
      revoked_refused hash config p fresh now later u found
        (find-All _ (IsDeadRow family) u gone.1 found mine)
