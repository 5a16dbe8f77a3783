-- ===== src/RefreshToken/Race.antt =====
-- Two callers that present one token at the same time: both have passed the checks before either
-- runs its update, and the calls to the database of one fall between those of the other.
use identity_ghost.Prelude.{
  ℕ, ◌≡◌, ◌≢◌, ◌∙◌, refl, Bool, true, Option, none, some, [], ◌∷◌, ◌++◌, arith, any, is_some,
  find-append_some, update_where, Text, ==_of_eq, Bool-cases, inl, inr, Option-cases,
}
use identity_ghost.Errors.{ok, err, internal}
use identity_ghost.RefreshToken.{
  RefreshToken, Table, is_unused, use_at, Config, Issued, RotateParams, Fresh, consume, mark_used,
  by_id, handle_replay, grace_child, save, same_parent, child_row, granted_scope, rotate,
  after_update, proceed,
}
use identity_ghost.RefreshToken.Rotation.{
  IsRotation, by_id-mark_used, find-by_id, after_update-rotates,
}

any-same_parent-update_where :
    (p : Option Text) (q : RefreshToken → Bool) (now : ℕ) (t : Table)
    → any (same_parent p) t ≡ true
    → any (same_parent p) (update_where q (use_at now) t) ≡ true
any-same_parent-update_where p q now [] h = h
any-same_parent-update_where none q now (r ∷ t) h = any-same_parent-update_where none q now t h
any-same_parent-update_where (some p) q now (r ∷ t) h =
    ground (arith, any-same_parent-update_where (some p) q now t)

any-append_last :
    (p : Text) (t : Table) (row : RefreshToken)
    → row.parent_id ≡ some p
    → any (same_parent (some p)) (t ++ row ∷ []) ≡ true
any-append_last p [] row h = ground (arith, ==_of_eq p p refl)
any-append_last p (r ∷ t) row h = ground (arith, any-append_last p t row h)

module _ (hash : Text → Text) (config : Config) where
  rotate-second_child :
      (e : RefreshToken) (requested : Option Text) (fresh : Fresh) (later : ℕ) (t : Table)
      {scope : Text}
      → granted_scope hash config requested e ≡ ok scope
      → any (same_parent (some e.id)) t ≡ true
      → rotate hash config e requested fresh later t ≡ (err internal, t)
  unfolding rotate save child_row
  rotate-second_child e requested fresh later t fine clash = rw (fine, rotate, clash)

  -- A caller that passed the checks while the token was unused, and goes on after another caller
  -- has rotated it, sees the token as used by "its" update: it is not sent to the replay handling,
  -- but fails with the error of the database's unique constraint, and no row is revoked.
  pub lost_race :
      (p q : RotateParams) (fresh fresh' : Fresh) (now later now' later' : ℕ) (t t' : Table)
      {i : Issued} {scope : Text}
      → (r : IsRotation hash config p fresh now later t i t')
      → granted_scope hash config q.requested_scope r.parent ≡ ok scope
      → proceed hash config consume r.parent q fresh' now' later' t'
        ≡ (err internal, mark_used r.parent.id now' t')
  unfolding proceed mark_used child_row
  lost_race p q fresh fresh' now later now' later' t t' r fine =
      let id = r.parent.id in
      let (row, here) = find-by_id _ t r.found in
      let (row', there) = by_id-mark_used id now t here in
      let child = child_row hash config r.parent r.scope fresh later in
      let found : by_id id t' ≡ some row' =
        rw r.stored (find-append_some _ (mark_used id now t) (child ∷ []) there) in
      let clash : any (same_parent (some id)) t' ≡ true =
        rw r.stored (any-append_last id (mark_used id now t) child refl) in
      after_update-rotates hash config r.parent q fresh' now' later' t' found
      ∙ rotate-second_child r.parent q.requested_scope fresh' later' (mark_used id now' t') fine
          (any-same_parent-update_where (some id) (is_unused id) now' t' clash)

  -- Once the token has a child, no caller that saw it unused gets another one, wherever the calls
  -- of others fall between its own.
  pub one_child :
      (e : RefreshToken) (p : RotateParams) (fresh : Fresh) (later : ℕ) (t t' : Table) {i : Issued}
      → e.used_at ≡ none
      → any (same_parent (some e.id)) t ≡ true
      → after_update hash config e p fresh later t ≢ (ok i, t')
  unfolding after_update handle_replay grace_child rotate save child_row
  one_child e p fresh later t t' {i} unused clash h = elim (Option-cases (by_id e.id t)) [
    | inl gone ↦ ground arith
    | inr (row, found) ↦ elim (Bool-cases (is_some row.used_at)) [
      | inl landed ↦ ground arith
      | inr lost ↦ ground arith
    ]
  ]
