-- ===== src/Consent/Grants.antt =====
-- The records of consent before and after a grant.
use identity_ghost.Prelude.{
  ◌≡◌, ◌≢◌, ◌↔◌, ◌⊎◌, refl, sym, ap, ◌∙◌, Bool, true, false, ◌&&◌, ◌||◌, Option, none, some, List,
  [], ◌∷◌, ◌++◌, arith, if◌then◌else◌, all, find, update_where, find-test, find-append_none, All,
  Text, ◌==◌, includes, includes-distinct, distinct, eq_of_==, ==_of_eq, Bool-cases, Option-cases,
  inl, inr,
}
use identity_ghost.Scope.{parse}
use identity_ghost.Scope.Tokens.{IsToken}
use identity_ghost.Scope.Laws.{
  parse-IsScopeList, includes-nonempty, includes-parse-format, includes-union, union-IsScopeList,
  All-IsSolid,
}
use identity_ghost.Consent.{
  UserConsent, Table, is_for, find_consent, granted, required, check_consent, new_consent, widen,
  grant_consent,
}

abbrev pub records_scope : Option UserConsent → Text → Bool
records_scope none a = false
records_scope (some c) a = includes (parse (some c.granted_scopes)) a

-- The scopes that are on record for a user and a client.
abbrev pub has_scope : Text → Text → Table → Text → Bool
has_scope user client t a = records_scope (find_consent user client t) a

all-iff_to :
    (p : Text → Bool) (xs : List Text)
    → all p xs ≡ true
    → (a : Text) → includes xs a ≡ true
    → p a ≡ true
all-iff_to p [] h a k = cc
all-iff_to p (x ∷ xs) h a k = elim (Bool-cases (x == a)) [
  | inl same ↦ let e = eq_of_== x a same in rw (← e) (ground arith)
  | inr other ↦ all-iff_to p xs (ground arith) a (ground arith)
]

all-iff_from :
    (p : Text → Bool) (xs : List Text)
    → ((a : Text) → includes xs a ≡ true → p a ≡ true)
    → all p xs ≡ true
all-iff_from p [] h = refl
all-iff_from p (x ∷ xs) h =
    ground (
      arith,
      h x (ground (arith, ==_of_eq x x refl)),
      all-iff_from p xs (λ a k. h a (ground arith)),
    )

-- Consent need not be asked for exactly when there is a record and every requested scope is on it.
pub check_consent-granted_iff :
    (user client : Text) (requested : List Text) (t : Table)
    → (check_consent user client requested t ≡ granted) ↔ (
        (find_consent user client t ≢ none)
        × ((a : Text) → includes requested a ≡ true → has_scope user client t a ≡ true))
unfolding check_consent
check_consent-granted_iff user client requested t = go (find_consent user client t) refl
  where
    accepted :
        (c : UserConsent)
        → (if all (includes (parse (some c.granted_scopes))) (distinct requested)
            then granted
            else required requested)
          ≡ granted
        → all (includes (parse (some c.granted_scopes))) (distinct requested) ≡ true
    accepted c h = ground arith

    go :
        (o : Option UserConsent)
        → find_consent user client t ≡ o
        → (check_consent user client requested t ≡ granted) ↔ (
            (find_consent user client t ≢ none)
            × ((a : Text) → includes requested a ≡ true → has_scope user client t a ≡ true))
    go none e =
        (λ h. let bad = rw (e, check_consent) at h in absurd (ground arith), λ h. absurd (h.0 e))
    go (some c) e = (
      λ h. (
        λ n. cc (e, n),
        λ a k. rw e (
            all-iff_to (includes (parse (some c.granted_scopes))) (distinct requested)
              (accepted c (rw (e, check_consent) at h)) a (includes-distinct requested a ∙ k)),
      ),
      λ h. rw (
        e,
        check_consent,
        all-iff_from (includes (parse (some c.granted_scopes))) (distinct requested)
            (λ a k. rw e at (h.1 a (sym (includes-distinct requested a) ∙ k))),
      ),
    )

widen-scopes :
    (approved : List Text) (c : UserConsent) (a : Text)
    → All IsToken approved
    → includes (parse (some (widen approved c).granted_scopes)) a
      ≡ (includes (parse (some c.granted_scopes)) a || includes approved a)
unfolding widen
widen-scopes approved c a h =
    let old = parse-IsScopeList (some c.granted_scopes) in
    let merged =
      union-IsScopeList (parse (some c.granted_scopes)) approved (All-IsSolid _ old.tokens)
        (All-IsSolid approved h) in
    includes-parse-format _ a merged.tokens
    ∙ includes-union (parse (some c.granted_scopes)) approved a
    ∙ ground (
      arith,
      includes-nonempty (parse (some c.granted_scopes)) a old.tokens,
      includes-nonempty approved a h,
    )

find-overwritten :
    (user client : Text) (row : UserConsent) (t : Table) {c : UserConsent}
    → is_for user client row ≡ true
    → find (is_for user client) t ≡ some c
    → find (is_for user client) (update_where (is_for user client) (λ _. row) t) ≡ some row
find-overwritten user client row [] mine h = cc
find-overwritten user client row (r ∷ t) {c} mine h =
    ground (arith, find-overwritten user client row t {c = c} mine)

-- What is on record after a grant: the row for the user and client, which is the new one.
pub find_consent-grant_consent :
    (id user client : Text) (approved : List Text) (t : Table)
    → let (row, t') = grant_consent id user client approved t in
      find_consent user client t' ≡ some row
unfolding grant_consent find_consent new_consent widen
find_consent-grant_consent id user client approved t =
    elim (Option-cases (find (is_for user client) t)) [
      | inl none_yet ↦
          rw (none_yet, grant_consent)
            (find-append_none (is_for user client) t _ none_yet
              ∙ ground (arith, ==_of_eq user user refl, ==_of_eq client client refl))
      | inr (c, found) ↦
          rw (found, grant_consent)
            (find-overwritten user client (widen approved c) t
              (find-test (is_for user client) t found) found)
    ]

row-scopes :
    (id user client : Text) (approved : List Text) (t : Table) (a : Text)
    → All IsToken approved
    → records_scope (some (grant_consent id user client approved t).0) a
      ≡ (has_scope user client t a || includes approved a)
unfolding grant_consent new_consent
row-scopes id user client approved t a h = elim (Option-cases (find_consent user client t)) [
  | inl none_yet ↦ rw (none_yet, grant_consent) (includes-parse-format approved a h)
  | inr (c, found) ↦ rw (found, grant_consent) (widen-scopes approved c a h)
]

-- After a grant exactly the scopes that were on record before and the approved ones are on record:
-- consent is never lost.
pub has_scope-grant_consent :
    (id user client : Text) (approved : List Text) (t : Table) (a : Text)
    → All IsToken approved
    → has_scope user client (grant_consent id user client approved t).1 a
      ≡ (has_scope user client t a || includes approved a)
has_scope-grant_consent id user client approved t a h =
    ap (λ o. records_scope o a) (find_consent-grant_consent id user client approved t)
    ∙ row-scopes id user client approved t a h

not_for :
    (user client user' client' : Text)
    → (user ≢ user') ⊎ (client ≢ client')
    → (user == user' && client == client') ≡ false
not_for user client user' client' other = ground arith

find-append_other :
    (user client : Text) (row : UserConsent) (t : Table)
    → is_for user client row ≡ false
    → find (is_for user client) (t ++ row ∷ []) ≡ find (is_for user client) t
find-append_other user client row [] h = rw h
find-append_other user client row (r ∷ t) h = ground (arith, find-append_other user client row t h)

find-overwritten_other :
    (user client user' client' : Text) (row : UserConsent) (t : Table)
    → (user ≢ user') ⊎ (client ≢ client')
    → is_for user' client' row ≡ false
    → find (is_for user' client') (update_where (is_for user client) (λ _. row) t)
      ≡ find (is_for user' client') t
find-overwritten_other user client user' client' row [] other h = refl
find-overwritten_other user client user' client' row (r ∷ t) other h =
    ground (arith, find-overwritten_other user client user' client' row t other h)

-- A grant leaves the records of every other user and client alone.
pub grant_consent-others :
    (id user client user' client' : Text) (approved : List Text) (t : Table)
    → (user ≢ user') ⊎ (client ≢ client')
    → find_consent user' client' (grant_consent id user client approved t).1
      ≡ find_consent user' client' t
unfolding grant_consent find_consent new_consent widen
grant_consent-others id user client user' client' approved t other =
    elim (Option-cases (find (is_for user client) t)) [
      | inl none_yet ↦
          rw (none_yet, grant_consent)
            (find-append_other user' client' (new_consent id user client approved) t
              (not_for user client user' client' other))
      | inr (c, found) ↦
          let mine = find-test (is_for user client) t found in
          rw (found, grant_consent)
            (find-overwritten_other user client user' client' (widen approved c) t other
              (ground (arith, eq_of_== c.user_id user, eq_of_== c.client_id client)))
    ]
