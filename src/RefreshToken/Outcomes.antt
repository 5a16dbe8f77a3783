-- ===== src/RefreshToken/Outcomes.antt =====
-- The successful calls of `consumeAndRotate`, in terms of the rows.
use identity_ghost.Prelude.{
  ℕ, ◌+◌, ◌*◌, ◌≤◌, ◌<◌, ◌≡◌, ◌⊎◌, inl, inr, refl, sym, subst, true, false, ◌&&◌, not, ltb, Option,
  none, some, [], ◌∷◌, ◌++◌, arith, is_some, is_text, all, find, update_where, Text, ◌==◌, or_null,
  includes, join_space, Option-cases, Bool-cases,
}
use identity_ghost.Errors.{ok}
use identity_ghost.RefreshToken.{
  RefreshToken, Table, Config, Issued, RotateParams, Fresh, grace_window_seconds, scope_set,
  validate_scope_subset, clamp_expiry, mark_used, grace_child, granted_scope, child_row,
  consume_and_rotate,
}
use identity_ghost.RefreshToken.Rotation.{
  IsRotation, IsGraceReply, screen-eq-consume, screen-eq-replay, consume_and_rotate_cases,
}
use identity_ghost.RefreshToken.Scopes.{granted_scope-narrows}

-- The token of the row may be presented by the client.
pub record IsLive (row : RefreshToken) (client : Text) (now : ℕ) : Type 0 where
  pub alive : row.revoked ≡ false
  pub sliding : now ≤ row.expires_at
  pub absolute : now ≤ row.absolute_expires_at
  pub own_client : row.client_id ≡ client

module _ (hash : Text → Text) (config : Config) (p : RotateParams) (fresh : Fresh) (now later : ℕ)
    (t : Table) where
  -- The token was live and unused; it is marked as used, and the answer is a new row that belongs to it.
  pub record IsConsumed (i : Issued) (t' : Table) : Type 0 where
    pub parent : RefreshToken
    pub found : find (λ r. r.token_hash == hash p.plaintext_token) t ≡ some parent
    pub live : IsLive parent p.client_id now
    pub unused : parent.used_at ≡ none
    pub plaintext : i.plaintext ≡ fresh.plaintext
    pub hashed : i.row.token_hash ≡ hash fresh.plaintext
    pub child_of : i.row.parent_id ≡ some parent.id
    pub own_family : i.row.family_id ≡ parent.family_id
    pub own_user : i.row.user_id ≡ parent.user_id
    pub own_client : i.row.client_id ≡ parent.client_id
    pub own_tenant : i.row.tenant_id ≡ parent.tenant_id
    pub own_session : i.row.sid ≡ or_null parent.sid
    pub not_revoked : i.row.revoked ≡ false
    pub not_used : i.row.used_at ≡ none
    pub same_deadline : i.row.absolute_expires_at ≡ parent.absolute_expires_at
    pub within_deadline : i.row.expires_at ≤ parent.absolute_expires_at
    pub within_window : i.row.expires_at ≤ later + config.sliding_expiry_ms
    pub earlier_of :
        (i.row.expires_at ≡ parent.absolute_expires_at)
        ⊎ (i.row.expires_at ≡ later + config.sliding_expiry_ms)
    pub narrows :
        (a : Text)
        → includes (scope_set i.row.scope) a ≡ true
        → includes (scope_set parent.scope) a ≡ true
    pub same_scope : or_null p.requested_scope ≡ none → i.row.scope ≡ parent.scope
    pub asked_scope :
        (s : Text) → or_null p.requested_scope ≡ some s → i.row.scope ≡ join_space (scope_set s)
    pub stored :
        t'
        ≡ update_where
            (λ r. r.id == parent.id && not (is_some r.used_at))
            (λ r. record r { used_at = some now })
            t
          ++ i.row ∷ []

  -- The token was used before, and the grace window is open.
  pub record IsReplayed (i : Issued) (t' : Table) : Type 0 where
    pub parent : RefreshToken
    pub found : find (λ r. r.token_hash == hash p.plaintext_token) t ≡ some parent
    pub live : IsLive parent p.client_id now
    pub used : ℕ
    pub used_then : parent.used_at ≡ some used
    pub window : 0 < grace_window_seconds config
    pub still_open : later ≤ used + grace_window_seconds config * 1000
    pub child : find (λ r. is_text r.parent_id parent.id) t ≡ some i.row
    pub same_token : i.plaintext ≡ p.plaintext_token
    pub unchanged : t' ≡ t

  unasked :
      (requested : Option Text) (e : RefreshToken) {scope : Text}
      → granted_scope hash config requested e ≡ ok scope
      → or_null requested ≡ none
      → scope ≡ e.scope
  unfolding granted_scope
  unasked none e h k = ground arith
  unasked (some []) e h k = ground arith
  unasked (some (c ∷ s)) e h k = cc

  asked :
      (requested : Option Text) (e : RefreshToken) {scope : Text} (s : Text)
      → granted_scope hash config requested e ≡ ok scope
      → or_null requested ≡ some s
      → scope ≡ join_space (scope_set s)
  unfolding granted_scope validate_scope_subset
  asked none e s h k = cc
  asked (some []) e s h k = cc
  asked (some (c ∷ w)) e {scope} s h k =
      elim (Bool-cases (all (includes (scope_set e.scope)) (scope_set (c ∷ w)))) [
        | inl subset ↦
            let same : scope ≡ join_space (scope_set (c ∷ w)) = ground arith in
            let whole : c ∷ w ≡ s = ground arith in
            subst (λ x. scope ≡ join_space (scope_set x)) whole same
        | inr excess ↦ absurd (ground arith)
      ]

  clamped_absolute : (sliding absolute : ℕ) → clamp_expiry later sliding absolute ≤ absolute
  unfolding clamp_expiry
  clamped_absolute sliding absolute = ground arith

  clamped_sliding : (sliding absolute : ℕ) → clamp_expiry later sliding absolute ≤ later + sliding
  unfolding clamp_expiry
  clamped_sliding sliding absolute = ground arith

  clamped_either :
      (sliding absolute : ℕ)
      → (clamp_expiry later sliding absolute ≡ absolute)
        ⊎ (clamp_expiry later sliding absolute ≡ later + sliding)
  unfolding clamp_expiry
  clamped_either sliding absolute = elim (Bool-cases (ltb (later + sliding) absolute)) [
    | inl sooner ↦ inr (rw sooner refl)
    | inr no_sooner ↦ inl (rw no_sooner refl)
  ]

  consumed :
      {i : Issued} {t' : Table} → IsRotation hash config p fresh now later t i t' → IsConsumed i t'
  unfolding child_row mark_used
  consumed {i} {t'} r =
      let e = r.parent in
      let (alive, sliding, absolute, own, unused) = screen-eq-consume e p.client_id now r.live in
      subst (λ x. IsConsumed x t') (sym r.issued)
        (record {
          parent = e;
          found = r.found;
          live = record { alive = alive; sliding = sliding; absolute = absolute; own_client = own };
          unused = unused;
          plaintext = refl;
          hashed = refl;
          child_of = refl;
          own_family = refl;
          own_user = refl;
          own_client = refl;
          own_tenant = refl;
          own_session = refl;
          not_revoked = refl;
          not_used = refl;
          same_deadline = refl;
          within_deadline = clamped_absolute config.sliding_expiry_ms e.absolute_expires_at;
          within_window = clamped_sliding config.sliding_expiry_ms e.absolute_expires_at;
          earlier_of = clamped_either config.sliding_expiry_ms e.absolute_expires_at;
          narrows = granted_scope-narrows hash config p.requested_scope e r.allowed;
          same_scope = unasked p.requested_scope e r.allowed;
          asked_scope = λ s k. asked p.requested_scope e s r.allowed k;
          stored = r.stored;
        })

  grace_child-eq-some :
      (e : RefreshToken) (used : ℕ) {c : RefreshToken}
      → grace_child hash config e (some used) later t ≡ some c
      → (0 < grace_window_seconds config)
        × (later ≤ used + grace_window_seconds config * 1000)
        × (find (λ r. is_text r.parent_id e.id) t ≡ some c)
  unfolding grace_child
  grace_child-eq-some e used {c} h = ground arith

  replayed :
      {i : Issued} {t' : Table} → IsGraceReply hash config p now later t i t' → IsReplayed i t'
  replayed {i} {t'} r =
      let e = r.parent in
      let (alive, sliding, absolute, own, again) = screen-eq-replay e p.client_id now r.used in
      elim (Option-cases e.used_at) [
        | inl never ↦ let bad = rw never at again in cc
        | inr (used, then_) ↦
            let (window, still_open, child) =
              grace_child-eq-some e used
                (subst (λ u. grace_child hash config e u later t ≡ some i.row) then_ r.child) in
            record {
              parent = e;
              found = r.found;
              live = record {
                alive = alive;
                sliding = sliding;
                absolute = absolute;
                own_client = own;
              };
              used = used;
              used_then = then_;
              window = window;
              still_open = still_open;
              child = child;
              same_token = r.same_token;
              unchanged = r.unchanged;
            }
      ]

  -- A call that succeeds presented a token of the client that was neither revoked nor past one of its
  -- deadlines. Either the token was unused: it is now marked as used, and the answer is a new token of the
  -- same family, user, client, tenant and session, whose scopes are those requested, or all where none
  -- were, and always among the old ones, and which expires by the window of the settings but no later
  -- than the family. Or it was used before and the grace window is open: the answer is the caller's own
  -- token with the row of its child, and nothing changes.
  pub consume_and_rotate-eq-ok :
      {i : Issued} (t' : Table)
      → consume_and_rotate hash config p fresh now later t ≡ (ok i, t')
      → IsConsumed i t' ⊎ IsReplayed i t'
  consume_and_rotate-eq-ok t' h =
      elim (consume_and_rotate_cases hash config p fresh now later t t' h) [
        | inl r ↦ inl (consumed r)
        | inr r ↦ inr (replayed r)
      ]
