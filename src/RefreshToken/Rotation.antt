-- ===== src/RefreshToken/Rotation.antt =====
-- Successful calls of `consumeAndRotate`.
use identity_ghost.Prelude.{
  ℕ, ◌≤◌, ◌≡◌, ◌⊎◌, inl, inr, refl, sym, ap, ◌∙◌, Bool, true, false, Option, none, some, [], ◌∷◌,
  ◌++◌, arith, is_some, find, any, All, find-All, find-update_where, if◌then◌else◌, eq_of_==,
  find-test, Text, ◌==◌, Option-cases, Bool-cases,
}
use identity_ghost.Errors.{ok, Result-cases}
use identity_ghost.RefreshToken.{
  RefreshToken, Table, is_unused, use_at, Config, Issued, RotateParams, Fresh, Verdict, reject,
  replay, consume, save, same_parent, mark_used, by_id, by_token, handle_replay, grace_child,
  child_row, granted_scope, rotate, after_update, screen, proceed, consume_and_rotate,
}

-- Every row with this id is used.
abbrev IsUsedAt : Text → RefreshToken → Type 0
IsUsedAt id r = r.id ≡ id → is_some r.used_at ≡ true

mark_used-IsUsedAt : (id : Text) (now : ℕ) (t : Table) → All (IsUsedAt id) (mark_used id now t)
unfolding mark_used
mark_used-IsUsedAt id now [] = tt
mark_used-IsUsedAt id now (r ∷ t) = ((λ e. ground arith), mark_used-IsUsedAt id now t)

pub by_id-mark_used :
    (id : Text) (now : ℕ) (t : Table) {row : RefreshToken}
    → by_id id t ≡ some row
    → (r : RefreshToken) × (by_id id (mark_used id now t) ≡ some r)
unfolding mark_used
by_id-mark_used id now t {row} h = (
  if is_unused id row then use_at now row else row,
  find-update_where (λ r. r.id == id) (is_unused id) (use_at now) t (λ r. refl) h,
)

-- The row that is fetched after the update is used, whether this update or another one did it.
pub refetched_used :
    (id : Text) (now : ℕ) (t : Table) {row : RefreshToken}
    → by_id id (mark_used id now t) ≡ some row
    → is_some row.used_at ≡ true
refetched_used id now t {row} h =
    find-All (λ r. r.id == id) (IsUsedAt id) (mark_used id now t) (mark_used-IsUsedAt id now t) h
      (eq_of_== row.id id (find-test (λ r. r.id == id) (mark_used id now t) h))

pub find-by_id :
    (q : RefreshToken → Bool) (t : Table) {e : RefreshToken}
    → find q t ≡ some e
    → (r : RefreshToken) × (by_id e.id t ≡ some r)
find-by_id q [] h = cc
find-by_id q (r ∷ t) {e} h = elim (Bool-cases (r.id == e.id)) [
  | inl same ↦ (r, rw same)
  | inr other ↦ elim (Bool-cases (q r)) [
    | inl hit ↦
        let same : r ≡ e = ground arith in
        let id_same : r.id ≡ e.id = ap (λ (x : RefreshToken). x.id) same in absurd (ground arith)
    | inr miss ↦ let (s, found) = find-by_id q t {e = e} (ground arith) in (s, rw other found)
  ]
]

-- How a call that succeeds has rotated the token.
pub record IsRotation (hash : Text → Text) (config : Config) (p : RotateParams) (fresh : Fresh)
    (now later : ℕ) (t : Table) (i : Issued) (t' : Table) : Type 0 where
  pub parent : RefreshToken
  pub found : by_token hash config p.plaintext_token t ≡ some parent
  pub live : screen parent p.client_id now ≡ consume
  pub scope : Text
  pub allowed : granted_scope hash config p.requested_scope parent ≡ ok scope
  pub issued :
      i
      ≡ record { plaintext = fresh.plaintext; row = child_row hash config parent scope fresh later }
  pub first_child : any (same_parent (some parent.id)) (mark_used parent.id now t) ≡ false
  pub stored : t' ≡ mark_used parent.id now t ++ child_row hash config parent scope fresh later ∷ []

-- How a call that succeeds has answered a replay inside the grace window.
pub record IsGraceReply (hash : Text → Text) (config : Config) (p : RotateParams) (now later : ℕ)
    (t : Table) (i : Issued) (t' : Table) : Type 0 where
  pub parent : RefreshToken
  pub found : by_token hash config p.plaintext_token t ≡ some parent
  pub used : screen parent p.client_id now ≡ replay
  pub same_token : i.plaintext ≡ p.plaintext_token
  pub child : grace_child hash config parent parent.used_at later t ≡ some i.row
  pub unchanged : t' ≡ t

module _ (hash : Text → Text) (config : Config) where
  -- Run on its own, the update always lands, and the call goes on to rotate.
  pub after_update-rotates :
      (e : RefreshToken) (p : RotateParams) (fresh : Fresh) (now later : ℕ) (t : Table)
      {row : RefreshToken}
      → by_id e.id t ≡ some row
      → after_update hash config e p fresh later (mark_used e.id now t)
        ≡ rotate hash config e p.requested_scope fresh later (mark_used e.id now t)
  unfolding after_update
  after_update-rotates e p fresh now later t found =
      let (r, again) = by_id-mark_used e.id now t found in
      rw (again, after_update, refetched_used e.id now t again)

  rotate-eq-ok :
      (e : RefreshToken) (requested : Option Text) (fresh : Fresh) (later : ℕ) (t t' : Table)
      {i : Issued}
      → rotate hash config e requested fresh later t ≡ (ok i, t')
      → (scope : Text) × (granted_scope hash config requested e ≡ ok scope)
        × (any (same_parent (some e.id)) t ≡ false)
        × (i ≡ record {
          plaintext = fresh.plaintext;
          row = child_row hash config e scope fresh later;
        })
        × (t' ≡ t ++ child_row hash config e scope fresh later ∷ [])
  unfolding rotate save child_row
  rotate-eq-ok e requested fresh later t t' {i} h =
      elim (Result-cases (granted_scope hash config requested e)) [
        | inl (scope, fine) ↦ elim (Bool-cases (any (same_parent (some e.id)) t)) [
          | inl clash ↦ absurd (ground arith)
          | inr free ↦ (scope, fine, free, ground arith, ground arith)
        ]
        | inr (x, failed) ↦ absurd (ground arith)
      ]

  handle_replay-eq-ok :
      (e : RefreshToken) (plaintext : Text) (later : ℕ) (t t' : Table) {i : Issued}
      → handle_replay hash config e plaintext later t ≡ (ok i, t')
      → (grace_child hash config e e.used_at later t ≡ some i.row)
        × (i.plaintext ≡ plaintext)
        × (t' ≡ t)
  unfolding handle_replay
  handle_replay-eq-ok e plaintext later t t' h = ground arith

  proceed-eq-ok :
      (d : Verdict) (e : RefreshToken) (p : RotateParams) (fresh : Fresh) (now later : ℕ)
      (t t' : Table) {i : Issued}
      → by_token hash config p.plaintext_token t ≡ some e
      → screen e p.client_id now ≡ d
      → proceed hash config d e p fresh now later t ≡ (ok i, t')
      → IsRotation hash config p fresh now later t i t'
        ⊎ IsGraceReply hash config p now later t i t'
  unfolding proceed
  proceed-eq-ok reject e p fresh now later t t' found screened h = absurd (ground arith)
  proceed-eq-ok replay e p fresh now later t t' found screened h =
      let (child, same, unchanged) = handle_replay-eq-ok e p.plaintext_token later t t' h in
      inr (record {
        parent = e;
        found = found;
        used = screened;
        same_token = same;
        child = child;
        unchanged = unchanged;
      })
  proceed-eq-ok consume e p fresh now later t t' found screened h =
      let (row, here) = find-by_id _ t found in
      let rotated = sym (after_update-rotates e p fresh now later t here) ∙ h in
      let (scope, fine, free, issued, stored) =
        rotate-eq-ok e p.requested_scope fresh later (mark_used e.id now t) t' rotated in
      inl (record {
        parent = e;
        found = found;
        live = screened;
        scope = scope;
        allowed = fine;
        issued = issued;
        first_child = free;
        stored = stored;
      })

  -- A successful call has either rotated a live, unused token into a new child row, or answered a
  -- replay inside the grace window with the child that was there, changing nothing.
  pub consume_and_rotate_cases :
      (p : RotateParams) (fresh : Fresh) (now later : ℕ) (t t' : Table) {i : Issued}
      → consume_and_rotate hash config p fresh now later t ≡ (ok i, t')
      → IsRotation hash config p fresh now later t i t'
        ⊎ IsGraceReply hash config p now later t i t'
  unfolding consume_and_rotate
  consume_and_rotate_cases p fresh now later t t' h =
      elim (Option-cases (by_token hash config p.plaintext_token t)) [
        | inl missing ↦ let bad = rw (missing, consume_and_rotate) at h in absurd (ground arith)
        | inr (e, found) ↦
            proceed-eq-ok (screen e p.client_id now) e p fresh now later t t' found refl
              (rw (found, consume_and_rotate) at h)
      ]

-- What the checks have established of a row whose token is presented again.
pub screen-eq-replay :
    (e : RefreshToken) (client : Text) (now : ℕ)
    → screen e client now ≡ replay
    → (e.revoked ≡ false)
      × (now ≤ e.expires_at)
      × (now ≤ e.absolute_expires_at)
      × (e.client_id ≡ client)
      × (is_some e.used_at ≡ true)
unfolding screen
screen-eq-replay e client now h = ground arith

-- What the checks have established of a row that may be consumed.
pub screen-eq-consume :
    (e : RefreshToken) (client : Text) (now : ℕ)
    → screen e client now ≡ consume
    → (e.revoked ≡ false)
      × (now ≤ e.expires_at)
      × (now ≤ e.absolute_expires_at)
      × (e.client_id ≡ client)
      × (e.used_at ≡ none)
unfolding screen
screen-eq-consume e client now h = ground arith
