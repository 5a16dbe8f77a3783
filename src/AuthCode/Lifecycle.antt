-- ===== src/AuthCode/Lifecycle.antt =====
-- From the creation of a code to its redemption.
use identity_ghost.Prelude.{
  ℕ, ◌+◌, ◌<◌, ◌≡◌, refl, ap, ◌∙◌, find-test, find-update_where, if◌then◌else◌, true, false, none,
  some, [], ◌∷◌, arith, any, find, update_where, All, All-imp, Pairwise-append_one,
  find-append_none, Text, eq_of_==, ==_of_eq, Bool-cases, inl, inr,
}
use identity_ghost.Errors.{Result, ok, err}
use identity_ghost.AuthCode.{
  AuthCode, Table, CodeParams, lifetime_ms, has_code, use_at, is_redeemable, code_row, save,
  choose_code, create_auth_token, redeem_postgres, redeem_sqlite, redeem_auth_code, claim_sqlite,
  find_by_code, is_unused, as_row, Database, sqlite, postgres,
}
use identity_ghost.AuthCode.Redemption.{HaveOwnCodes, IsUnique, reads_rows}

module _ (row : AuthCode) where
  overwritten_found :
      (later : ℕ) (t : Table)
      → row.used ≡ false
      → later < row.expires_at
      → any (has_code row.code) t ≡ true
      → find (is_redeemable row.code later) (update_where (has_code row.code) (λ _. row) t)
        ≡ some row
  overwritten_found later [] fresh live h = cc
  overwritten_found later (r ∷ t) fresh live h =
      ground (arith, overwritten_found later t fresh live, ==_of_eq row.code row.code refl)

  not_redeemable :
      (later : ℕ) (t : Table)
      → any (has_code row.code) t ≡ false
      → find (is_redeemable row.code later) t ≡ none
  not_redeemable later [] h = refl
  not_redeemable later (r ∷ t) h = ground (arith, not_redeemable later t)

  saved_found :
      (later : ℕ) (t : Table)
      → row.used ≡ false
      → later < row.expires_at
      → find (is_redeemable row.code later) (save row t) ≡ some row
  unfolding save
  saved_found later t fresh live = elim (Bool-cases (any (has_code row.code) t)) [
    | inl taken ↦ rw taken (overwritten_found later t fresh live taken)
    | inr free ↦
        rw
          (
            free,
            find-append_none (is_redeemable row.code later) t (row ∷ [])
                (not_redeemable later t free),
          )
          (ground (arith, ==_of_eq row.code row.code refl))
  ]

  overwritten_kept :
      (t : Table)
      → any (has_code row.code) t ≡ true
      → find (has_code row.code) (update_where (has_code row.code) (λ _. row) t) ≡ some row
  overwritten_kept [] h = cc
  overwritten_kept (r ∷ t) h = ground (arith, overwritten_kept t, ==_of_eq row.code row.code refl)

  unseen : (t : Table) → any (has_code row.code) t ≡ false → find (has_code row.code) t ≡ none
  unseen [] h = refl
  unseen (r ∷ t) h = ground (arith, unseen t)

  saved_kept : (t : Table) → find (has_code row.code) (save row t) ≡ some row
  unfolding save
  saved_kept t = elim (Bool-cases (any (has_code row.code) t)) [
    | inl taken ↦ rw taken (overwritten_kept t taken)
    | inr free ↦
        rw (free, find-append_none (has_code row.code) t (row ∷ []) (unseen t free))
          (ground (arith, ==_of_eq row.code row.code refl))
  ]

  others_free : (t : Table) → any (has_code row.code) t ≡ false → All (λ r. HaveOwnCodes r row) t
  others_free [] h = tt
  others_free (r ∷ t) h =
      ((λ e. let same = ==_of_eq r.code row.code e in ground arith), others_free t (ground arith))

  overwritten_own :
      (r : AuthCode) (t : Table)
      → All (HaveOwnCodes r) t
      → All (HaveOwnCodes r) (update_where (has_code row.code) (λ _. row) t)
  overwritten_own r [] h = tt
  overwritten_own r (s ∷ t) h = elim (Bool-cases (has_code row.code s)) [
    | inl same ↦ rw same ((λ e. h.0 (ground arith)), overwritten_own r t h.1)
    | inr other ↦ rw other (h.0, overwritten_own r t h.1)
  ]

  overwritten-IsUnique :
      (t : Table) → IsUnique t → IsUnique (update_where (has_code row.code) (λ _. row) t)
  overwritten-IsUnique [] u = tt
  overwritten-IsUnique (r ∷ t) u = elim (Bool-cases (has_code row.code r)) [
    | inl same ↦ rw same (
      overwritten_own row t
          (All-imp (HaveOwnCodes r) (HaveOwnCodes row) t (λ s n e. n (eq_of_== _ _ same ∙ e)) u.0),
      overwritten-IsUnique t u.1,
    )
    | inr other ↦ rw other (overwritten_own r t u.0, overwritten-IsUnique t u.1)
  ]

-- Creating a code keeps codes unique.
pub create_auth_token-IsUnique :
    (p : CodeParams) (otp random : Text) (now : ℕ) (t : Table)
    → IsUnique t
    → IsUnique (create_auth_token p otp random now t).1
unfolding create_auth_token save
create_auth_token-IsUnique p otp random now t u =
    let row = code_row p (choose_code otp random t) now in
    elim (Bool-cases (any (has_code row.code) t)) [
      | inl taken ↦ rw taken (overwritten-IsUnique row t u)
      | inr free ↦ rw free (Pairwise-append_one HaveOwnCodes t row u (others_free row t free))
    ]

kept_unused :
    (code : Text) (t : Table) {row : AuthCode}
    → find (has_code code) t ≡ some row
    → row.used ≡ false
    → any (is_unused code) t ≡ true
kept_unused code [] h fresh = cc
kept_unused code (r ∷ t) {row} h fresh = elim (Bool-cases (has_code code r)) [
  | inl here ↦
      let same : r ≡ row = ground arith in ground (arith, ap (λ (x : AuthCode). x.used) same)
  | inr other ↦ ground (arith, kept_unused code t {row = row} (ground arith) fresh)
]

sqlite_reads :
    (row : AuthCode) (later : ℕ) (t : Table)
    → find (has_code row.code) t ≡ some row
    → row.used ≡ false
    → later < row.expires_at
    → (redeem_sqlite row.code later t).0 ≡ ok (use_at later row)
unfolding redeem_sqlite claim_sqlite find_by_code
sqlite_reads row later t found fresh live =
    let again : find (has_code row.code) (update_where (is_unused row.code) (use_at later) t)
        ≡ some (if is_unused row.code row then use_at later row else row) =
      find-update_where (has_code row.code) (is_unused row.code) (use_at later) t (λ x. refl)
        found in
    let mine = find-test (has_code row.code) t found in
    ground (arith, kept_unused row.code t found fresh)

as_row-ok :
    (s : Result AuthCode × Table) {row : AuthCode} → s.0 ≡ ok row → (as_row s).0 ≡ ok (some row)
as_row-ok (ok r, t) h = ground arith
as_row-ok (err e, t) h = cc

pub created_redeems :
    (db : Database) (p : CodeParams) (otp random : Text) (now later : ℕ) (t : Table)
    → reads_rows db ≡ true
    → later < now + lifetime_ms
    → let (code, t') = create_auth_token p otp random now t in
      (redeem_auth_code db code later t').0 ≡ ok (some (use_at later (code_row p code now)))
unfolding create_auth_token redeem_auth_code redeem_postgres code_row
created_redeems sqlite p otp random now later t read live =
    let row = code_row p (choose_code otp random t) now in
    as_row-ok _ (sqlite_reads row later (save row t) (saved_kept row t) refl live)
created_redeems (postgres true) p otp random now later t read live = cc
created_redeems (postgres false) p otp random now later t read live =
    let row = code_row p (choose_code otp random t) now in
    rw (saved_found row later t refl live, redeem_postgres)
