-- ===== src/AuthCode/Redemption.antt =====
-- The redemption of an authorization code, on either database.
use identity_ghost.Prelude.{
  ℕ, ◌≤◌, ◌≡◌, ◌≢◌, refl, sym, ap, subst, Bool, true, false, not, none, some, [], ◌∷◌, arith, any,
  find, update_where, Pairwise, Text, Option-cases, inl, inr,
}
use identity_ghost.Errors.{Result, ok, err, oauth, invalid_grant}
use identity_ghost.AuthCode.{
  AuthCode, Table, Database, sqlite, postgres, as_row, has_code, use_at, is_redeemable, is_unused,
  redeem_postgres, redeem_sqlite, redeem_auth_code, claim_sqlite, delete_expired_auth_codes,
}

pub redeemed_is_spent :
    (code : Text) (now later : ℕ) (t : Table)
    → now ≤ later
    → find (is_redeemable code later) (update_where (is_redeemable code now) (use_at now) t) ≡ none
redeemed_is_spent code now later [] h = refl
redeemed_is_spent code now later (r ∷ t) h = ground (arith, redeemed_is_spent code now later t h)

update_none :
    (code : Text) (now : ℕ) (t : Table)
    → find (is_redeemable code now) t ≡ none
    → update_where (is_redeemable code now) (use_at now) t ≡ t
update_none code now [] h = refl
update_none code now (r ∷ t) h = ground (arith, update_none code now t)

claimed_is_used :
    (code : Text) (now : ℕ) (t : Table)
    → any (is_unused code) (update_where (is_unused code) (use_at now) t) ≡ false
claimed_is_used code now [] = refl
claimed_is_used code now (r ∷ t) = ground (arith, claimed_is_used code now t)

-- The databases on which a redeemed row is read: all but one whose answer is the pair.
abbrev pub reads_rows : Database → Bool
reads_rows sqlite = true
reads_rows (postgres pairs) = not pairs

redeem_sqlite-eq-ok :
    (code : Text) (now : ℕ) (t t' : Table) {row : AuthCode}
    → redeem_sqlite code now t ≡ (ok row, t')
    → t' ≡ update_where (is_unused code) (use_at now) t
unfolding redeem_sqlite claim_sqlite
redeem_sqlite-eq-ok code now t t' {row} h = elim (Option-cases (find (has_code code) t)) [
  | inl gone ↦ let bad = rw (gone, redeem_sqlite) at h in cc
  | inr (r, found) ↦ ground (arith, found, h)
]

redeem_sqlite-refused :
    (code : Text) (now : ℕ) (t : Table)
    → any (is_unused code) t ≡ false
    → redeem_sqlite code now t ≡ (err (oauth invalid_grant), t)
unfolding redeem_sqlite claim_sqlite
redeem_sqlite-refused code now t h = ground (arith, Option-cases (find (has_code code) t))

as_row-eq-ok :
    (s : Result AuthCode × Table) (t' : Table) {row : AuthCode}
    → as_row s ≡ (ok (some row), t')
    → s ≡ (ok row, t')
as_row-eq-ok (err e, t) t' h = absurd (ground arith)
as_row-eq-ok (ok r, t) t' h = ground arith

redeem_postgres-eq-ok :
    (code : Text) (now : ℕ) (t t' : Table) {row : AuthCode}
    → redeem_postgres false code now t ≡ (ok (some row), t')
    → t' ≡ update_where (is_redeemable code now) (use_at now) t
unfolding redeem_postgres
redeem_postgres-eq-ok code now t t' {row} h =
    elim (Option-cases (find (is_redeemable code now) t)) [
      | inl missing ↦ absurd (ground arith)
      | inr (r, found) ↦ ground arith
    ]

pub redeem_postgres-pair :
    (code : Text) (now : ℕ) (t : Table)
    → redeem_postgres true code now t
      ≡ (ok none, update_where (is_redeemable code now) (use_at now) t)
unfolding redeem_postgres
redeem_postgres-pair code now t = elim (Option-cases (find (is_redeemable code now) t)) [
  | inl missing ↦
      rw (missing, redeem_postgres) (ap (λ s. (ok none, s)) (sym (update_none code now t missing)))
  | inr (r, found) ↦ rw (found, redeem_postgres) refl
]

-- A row is read only on a database that answers with rows.
pub redeem_auth_code-reads :
    (db : Database) (code : Text) (now : ℕ) (t t' : Table) {row : AuthCode}
    → redeem_auth_code db code now t ≡ (ok (some row), t')
    → reads_rows db ≡ true
unfolding redeem_auth_code
redeem_auth_code-reads sqlite code now t t' h = refl
redeem_auth_code-reads (postgres false) code now t t' h = refl
redeem_auth_code-reads (postgres true) code now t t' h =
    let e = redeem_postgres-pair code now t in absurd (ground arith)

-- A code that was redeemed is refused from then on, and the refusal changes nothing; on every database
-- on which the redemption returned a row.
pub redeemed_once :
    (db : Database) (code : Text) (now later : ℕ) (t t' : Table) {row : AuthCode}
    → redeem_auth_code db code now t ≡ (ok (some row), t')
    → now ≤ later
    → redeem_auth_code db code later t' ≡ (err (oauth invalid_grant), t')
unfolding redeem_auth_code redeem_postgres
redeemed_once sqlite code now later t t' h le =
    let stored = redeem_sqlite-eq-ok code now t t' (as_row-eq-ok (redeem_sqlite code now t) t' h) in
    let used = claimed_is_used code now t in
    let refused =
      redeem_sqlite-refused code later t'
        (subst (λ s. any (is_unused code) s ≡ false) (sym stored) used) in
    ap as_row refused
redeemed_once (postgres false) code now later t t' h le =
    let stored = redeem_postgres-eq-ok code now t t' h in
    let refused : redeem_postgres false code later
          (update_where (is_redeemable code now) (use_at now) t)
        ≡ (err (oauth invalid_grant), update_where (is_redeemable code now) (use_at now) t) =
      rw (redeemed_is_spent code now later t le, redeem_postgres) in
    subst (λ s. redeem_postgres false code later s ≡ (err (oauth invalid_grant), s)) (sym stored)
      refused
redeemed_once (postgres true) code now later t t' h le =
    let e = redeem_postgres-pair code now t in absurd (ground arith)

-- Codes are a primary key.
abbrev pub HaveOwnCodes : AuthCode → AuthCode → Type 0
HaveOwnCodes r s = r.code ≢ s.code

abbrev pub IsUnique : Table → Type 0
IsUnique t = Pairwise HaveOwnCodes t

cleanup_keeps :
    (code : Text) (now later : ℕ) (t : Table)
    → now ≤ later
    → find (is_redeemable code later) (delete_expired_auth_codes now t)
      ≡ find (is_redeemable code later) t
unfolding delete_expired_auth_codes
cleanup_keeps code now later [] h = refl
cleanup_keeps code now later (r ∷ t) h = ground (arith, cleanup_keeps code now later t h)

-- The cleanup never changes the answer of PostgreSQL to a later redemption.
pub redeem-delete_expired :
    (pairs : Bool) (code : Text) (now later : ℕ) (t : Table)
    → now ≤ later
    → (redeem_postgres pairs code later (delete_expired_auth_codes now t)).0
      ≡ (redeem_postgres pairs code later t).0
unfolding redeem_postgres
redeem-delete_expired pairs code now later t h = ground (arith, cleanup_keeps code now later t h)
