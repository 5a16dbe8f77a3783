-- ===== src/RefreshToken/Rows.antt =====
-- The invariant of the refresh token table.
use identity_ghost.Prelude.{
  ℕ, ◌+◌, ◌≤◌, ◌≡◌, ◌≢◌, refl, sym, Bool, false, Option, some, [], ◌∷◌, arith, is_some,
  update_where, any, All, All-append, All-update_where, All-imp, Pairwise, Pairwise-update_where,
  Pairwise-append_one, Pairwise-find, Text, Option-cases, inl, inr, Bool-cases,
}
use identity_ghost.Errors.{Result, ok, err, Result-cases}
use identity_ghost.RefreshToken.{
  RefreshToken, Table, is_unused, use_at, revoke, Config, RotateParams, CreateParams, Fresh,
  Verdict, reject, replay, consume, clamp_expiry, same_parent, save, issue, revoke_family,
  revoke_by_sid, mark_used, by_id, by_token, first_row, create, handle_replay, grace_child,
  child_row, granted_scope, rotate, after_update, screen, proceed, consume_and_rotate,
}

-- A token never outlives its family's deadline.
abbrev pub IsBounded : RefreshToken → Type 0
IsBounded r = r.expires_at ≤ r.absolute_expires_at

-- Two rows of one family belong to the same user, client, tenant and deadline.
abbrev pub AreConsistent : RefreshToken → RefreshToken → Type 0
AreConsistent r s =
    r.family_id ≡ s.family_id
    → (r.user_id ≡ s.user_id)
      × (r.client_id ≡ s.client_id)
      × (r.tenant_id ≡ s.tenant_id)
      × (r.absolute_expires_at ≡ s.absolute_expires_at)

-- No two rows have one parent.
abbrev pub HaveOwnParents : RefreshToken → RefreshToken → Type 0
HaveOwnParents r s = (p : Text) → r.parent_id ≡ some p → s.parent_id ≢ some p

pub record IsValid (t : Table) : Type 0 where
  pub bounded : All IsBounded t
  pub coherent : Pairwise AreConsistent t
  pub parents : Pairwise HaveOwnParents t

AreConsistent-refl : (r : RefreshToken) → AreConsistent r r
AreConsistent-refl r h = (refl, refl, refl, refl)

AreConsistent-symm : (r s : RefreshToken) → AreConsistent r s → AreConsistent s r
AreConsistent-symm r s h e = let (u, c, t, a) = h (sym e) in (sym u, sym c, sym t, sym a)

-- Marking rows as used or revoked changes nothing that the invariant speaks of.
module _ (q : RefreshToken → Bool) (t : Table) (v : IsValid t) where
  revoke-IsValid : IsValid (update_where q revoke t)
  revoke-IsValid = record {
    bounded = All-update_where IsBounded q _ t (λ r h. h) v.bounded;
    coherent = Pairwise-update_where AreConsistent q _ t (λ r s h. h) (λ r s h. h) v.coherent;
    parents = Pairwise-update_where HaveOwnParents q _ t (λ r s h. h) (λ r s h. h) v.parents;
  }

  use-IsValid : (now : ℕ) → IsValid (update_where q (use_at now) t)
  use-IsValid now = record {
    bounded = All-update_where IsBounded q _ t (λ r h. h) v.bounded;
    coherent = Pairwise-update_where AreConsistent q _ t (λ r s h. h) (λ r s h. h) v.coherent;
    parents = Pairwise-update_where HaveOwnParents q _ t (λ r s h. h) (λ r s h. h) v.parents;
  }

pub revoke_family-IsValid :
    (family : Text) (t : Table) → IsValid t → IsValid (revoke_family family t)
unfolding revoke_family
revoke_family-IsValid family t v = revoke-IsValid _ t v

pub revoke_by_sid-IsValid : (sid : Text) (t : Table) → IsValid t → IsValid (revoke_by_sid sid t)
unfolding revoke_by_sid
revoke_by_sid-IsValid sid t v = revoke-IsValid _ t v

pub mark_used-IsValid : (id : Text) (now : ℕ) (t : Table) → IsValid t → IsValid (mark_used id now t)
unfolding mark_used
mark_used-IsValid id now t v = use-IsValid _ t v now

mark_used-AreConsistent :
    (e : RefreshToken) (id : Text) (now : ℕ) (t : Table)
    → All (AreConsistent e) t
    → All (AreConsistent e) (mark_used id now t)
unfolding mark_used
mark_used-AreConsistent e id now t c =
    All-update_where (AreConsistent e) (is_unused id) (use_at now) t (λ r h. h) c

own_parents_of :
    (row : RefreshToken) (t : Table)
    → any (same_parent row.parent_id) t ≡ false
    → All (λ r. HaveOwnParents r row) t
own_parents_of row [] h = tt
own_parents_of row (r ∷ t) h = ((λ p e f. ground arith), own_parents_of row t (ground arith))

pub save-IsValid :
    (row : RefreshToken) (t : Table)
    → IsValid t
    → IsBounded row
    → All (λ r. AreConsistent r row) t
    → IsValid (save row t).1
unfolding save
save-IsValid row t v b c = elim (Bool-cases (any (same_parent row.parent_id) t)) [
  | inl clash ↦ rw clash v
  | inr free ↦ rw free (record {
    bounded = All-append IsBounded t (row ∷ []) v.bounded (b, tt);
    coherent = Pairwise-append_one AreConsistent t row v.coherent c;
    parents = Pairwise-append_one HaveOwnParents t row v.parents (own_parents_of row t free);
  })
]

pub clamp_expiry-le : (now sliding deadline : ℕ) → clamp_expiry now sliding deadline ≤ deadline
unfolding clamp_expiry
clamp_expiry-le now sliding deadline = ground arith

issue-IsValid :
    (plaintext : Text) (row : RefreshToken) (s : Result (Unit {0}) × Table)
    → IsValid s.1
    → IsValid (issue plaintext row s).1
issue-IsValid plaintext row (ok _, t) v = v
issue-IsValid plaintext row (err _, t) v = v

module _ (hash : Text → Text) (config : Config) where
  -- Creating a token of a family that is new keeps the invariant: tokens expire by their family's
  -- deadline, a family has one owner and deadline, and no two rows have one parent.
  pub create-IsValid :
      (p : CreateParams) (fresh : Fresh) (now later : ℕ) (t : Table)
      → IsValid t
      → All (λ r. r.family_id ≢ fresh.family) t
      → IsValid (create hash config p fresh now later t).1
  unfolding create first_row
  create-IsValid p fresh now later t v new =
      let row = first_row hash config p fresh now later in
      issue-IsValid fresh.plaintext row (save row t) (
        save-IsValid row t v
          (clamp_expiry-le later config.sliding_expiry_ms (now + config.absolute_expiry_ms))
          (All-imp (λ r. r.family_id ≢ fresh.family) (λ r. AreConsistent r row) t
            (λ r n e. absurd (n e)) new))

  handle_replay-IsValid :
      (e : RefreshToken) (plaintext : Text) (later : ℕ) (t : Table)
      → IsValid t
      → IsValid (handle_replay hash config e plaintext later t).1
  unfolding handle_replay
  handle_replay-IsValid e plaintext later t v =
      elim (Option-cases (grace_child hash config e e.used_at later t)) [
        | inl shut ↦ rw (shut, handle_replay) (revoke_family-IsValid e.family_id t v)
        | inr (child, found) ↦ rw (found, handle_replay) v
      ]

  rotate-IsValid :
      (e : RefreshToken) (requested : Option Text) (fresh : Fresh) (later : ℕ) (t : Table)
      → IsValid t
      → All (AreConsistent e) t
      → IsValid (rotate hash config e requested fresh later t).1
  unfolding rotate child_row
  rotate-IsValid e requested fresh later t v c =
      elim (Result-cases (granted_scope hash config requested e)) [
        | inl (scope, fine) ↦
            let row = child_row hash config e scope fresh later in
            rw (fine, rotate)
              (issue-IsValid fresh.plaintext row (save row t) (
                save-IsValid row t v
                  (clamp_expiry-le later config.sliding_expiry_ms e.absolute_expires_at)
                  (All-imp (AreConsistent e) (λ r. AreConsistent r row) t (AreConsistent-symm e)
                    c)))
        | inr (x, failed) ↦ rw (failed, rotate) v
      ]

  after_update-IsValid :
      (e : RefreshToken) (p : RotateParams) (fresh : Fresh) (later : ℕ) (t : Table)
      → IsValid t
      → All (AreConsistent e) t
      → IsValid (after_update hash config e p fresh later t).1
  unfolding after_update
  after_update-IsValid e p fresh later t v c = elim (Option-cases (by_id e.id t)) [
    | inl gone ↦ rw (gone, after_update) (handle_replay-IsValid e p.plaintext_token later t v)
    | inr (row, found) ↦ elim (Bool-cases (is_some row.used_at)) [
      | inl landed ↦
          rw (found, after_update, landed) (rotate-IsValid e p.requested_scope fresh later t v c)
      | inr lost ↦
          rw (found, after_update, lost) (handle_replay-IsValid e p.plaintext_token later t v)
    ]
  ]

  proceed-IsValid :
      (d : Verdict) (e : RefreshToken) (p : RotateParams) (fresh : Fresh) (now later : ℕ)
      (t : Table)
      → IsValid t
      → All (AreConsistent e) t
      → IsValid (proceed hash config d e p fresh now later t).1
  unfolding proceed
  proceed-IsValid reject e p fresh now later t v c = v
  proceed-IsValid replay e p fresh now later t v c =
      handle_replay-IsValid e p.plaintext_token later t v
  proceed-IsValid consume e p fresh now later t v c =
      after_update-IsValid e p fresh later (mark_used e.id now t) (mark_used-IsValid e.id now t v)
        (mark_used-AreConsistent e e.id now t c)

  -- Rotating a token, with whatever outcome, keeps the table well formed.
  -- A rotation keeps the invariant, whether it succeeds or fails: tokens expire by their family's
  -- deadline, a family has one owner and deadline, and no two rows have one parent.
  pub consume_and_rotate-IsValid :
      (p : RotateParams) (fresh : Fresh) (now later : ℕ) (t : Table)
      → IsValid t
      → IsValid (consume_and_rotate hash config p fresh now later t).1
  unfolding consume_and_rotate
  consume_and_rotate-IsValid p fresh now later t v =
      elim (Option-cases (by_token hash config p.plaintext_token t)) [
        | inl missing ↦ rw (missing, consume_and_rotate) v
        | inr (e, found) ↦
            rw (found, consume_and_rotate)
              (proceed-IsValid (screen e p.client_id now) e p fresh now later t v (
                Pairwise-find AreConsistent _ t AreConsistent-refl AreConsistent-symm v.coherent
                  found))
      ]
