-- ===== src/KeyManagement/Cleanup.antt =====
-- Which kids still lead to a public key after the cleanup.
use identity_ghost.Prelude.{
  ℕ, ◌+◌, ◌*◌, ◌<◌, ◌≡◌, ◌↔◌, refl, sym, ap, ◌∙◌, true, false, Option, none, some, is_some, [], ◌∷◌,
  Text, ◌==◌, find, find-test, update_where, arith, Bool-cases, inl, inr, All, eq_of_==,
}
use identity_ghost.Errors.{ok}
use identity_ghost.KeyManagement.{
  TenantKey, Table, has_kid, get_public_key_by_kid, deactivated, is_expired,
  deactivate_expired_keys,
}
use identity_ghost.KeyManagement.Rows.{IsValid, Compatible}
use identity_ghost.KeyManagement.Loops.{is_due, by_due}
use identity_ghost.KeyManagement.Newest.{find-update_where_kept}

-- A key that no longer signs, and whose overlap window has passed.
abbrev pub IsPast : ℕ → ℕ → TenantKey → Type 0
IsPast seconds now k =
    (k.is_current ≡ false) × ((at : ℕ) × (k.superseded_at ≡ some at) × (at + seconds * 1000 < now))

expired_at :
    (seconds now : ℕ) (o : Option ℕ)
    → is_expired (some seconds) now o ≡ true
    → (at : ℕ) × (o ≡ some at) × (at + seconds * 1000 < now)
unfolding is_expired
expired_at seconds now none h = cc
expired_at seconds now (some at) h = (at, refl, ground arith)

past_is_due :
    (seconds now : ℕ) (k : TenantKey)
    → is_some k.deactivated_at ≡ false
    → IsPast seconds now k
    → is_due (some seconds) now k ≡ true
unfolding is_expired
past_is_due seconds now k active (off, (at, e, late)) = rw (off, e, active) (ground arith)

due-IsPast :
    (seconds now : ℕ) (k : TenantKey) → is_due (some seconds) now k ≡ true → IsPast seconds now k
due-IsPast seconds now k h = (ground arith, expired_at seconds now k.superseded_at (ground arith))

All-without :
    (seconds : Option ℕ) (now : ℕ) (kid tenant : Text) (k : TenantKey) (t : Table)
    → k.kid ≡ kid
    → All (Compatible k) t
    → find (has_kid kid tenant) (update_where (is_due seconds now) (deactivated now) t) ≡ none
All-without seconds now kid tenant k [] e w = refl
All-without seconds now kid tenant k (r ∷ t) e w =
    let other = w.0.kids in
    ground (
      arith,
      All-without seconds now kid tenant k t e w.1,
      λ (h : (r.kid == kid) ≡ true). other (e ∙ sym (eq_of_== r.kid kid h)),
    )

find-cleaned :
    (seconds : Option ℕ) (now : ℕ) (kid tenant : Text) (t : Table) {k : TenantKey}
    → IsValid t
    → find (has_kid kid tenant) t ≡ some k
    → is_due seconds now k ≡ true
    → find (has_kid kid tenant) (update_where (is_due seconds now) (deactivated now) t) ≡ none
find-cleaned seconds now kid tenant [] w found due = cc
find-cleaned seconds now kid tenant (r ∷ t) {k} w found due =
    elim (Bool-cases (has_kid kid tenant r)) [
      | inl here ↦
          let same : r ≡ k = ground arith in
          let kid_here : r.kid ≡ kid = eq_of_== r.kid kid (ground arith) in
          let due_here : is_due seconds now r ≡ true = ap (λ x. is_due seconds now x) same ∙ due in
          let rest = All-without seconds now kid tenant r t kid_here w.0 in
          rw due_here (ground (arith, rest))
      | inr other ↦ ground (arith, find-cleaned seconds now kid tenant t {k = k} w.1)
    ]

-- A kid that led to a key still leads to it after the cleanup exactly if the key is not past its
-- window: while a token that the key signed may be alive, it can be checked, and no longer.
pub resolves-deactivate_expired_keys :
    (seconds now : ℕ) (kid tenant : Text) (t : Table) {k : TenantKey}
    → IsValid t
    → find (has_kid kid tenant) t ≡ some k
    → (get_public_key_by_kid kid tenant (deactivate_expired_keys (some seconds) now t)
        ≡ ok k.public_key)
      ↔ (¬ IsPast seconds now k)
unfolding get_public_key_by_kid
resolves-deactivate_expired_keys seconds now kid tenant t {k} w found =
    let cleaned = by_due (some seconds) now t w in
    let passes = find-test (has_kid kid tenant) t found in
    let active : is_some k.deactivated_at ≡ false = ground arith in
    (
      λ h past.
          let gone =
            find-cleaned (some seconds) now kid tenant t w found
              (past_is_due seconds now k active past) in
          let bad = rw (cleaned, gone, get_public_key_by_kid) at h in cc,
      λ fresh. elim (Bool-cases (is_due (some seconds) now k)) [
        | inl due ↦ absurd (fresh (due-IsPast seconds now k due))
        | inr kept ↦
            let there =
              find-update_where_kept (has_kid kid tenant) (is_due (some seconds) now)
                (deactivated now) t (λ x d. ground arith) found kept in
            rw cleaned (rw (there, get_public_key_by_kid) refl)
      ],
    )
