-- ===== src/AccessToken/Accepted.antt =====
-- Which access tokens are accepted, and that a rotation of the keys does not change it.
use identity_ghost.Prelude.{
  ◌<◌, ◌≡◌, refl, sym, ap, ◌∙◌, subst, Bool, true, false, ◌||◌, not, Option, none, some, arith,
  if◌then◌else◌, Text, text, ◌==◌, eq_of_==, Bool-cases, inl, inr, number, ℕ,
}
use identity_ghost.Errors.{
  Result, Exception, ok, err, ◌>>=◌, ◌>>◌, throw_if, or_throw, bind-eq-ok, ok-injective,
  throw_if-eq-ok, oauth, invalid_token, internal,
}
use identity_ghost.Directory.{
  User, Directory, find_user, find_tenant, is_member, is_user_subscribed_to_tenant,
}
use identity_ghost.Directory.Access.{find_tenant-id}
use identity_ghost.KeyManagement.{TenantKey, Fresh, get_public_key_by_kid, rotate_key}
use identity_ghost.KeyManagement
use identity_ghost.KeyManagement.Limit.{active_count}
use identity_ghost.KeyManagement.Overlap.{rotate_key-keeps}
use identity_ghost.AccessToken.{
  RawClaims, Token, Libraries, has_required, has_array_aud, check_membership, check_holder,
  check_token, or_invalid_token, validate_access_token,
}

or_throw-eq-ok {ℓ} :
    {A : Type ℓ} (o : Option A) (e : Exception) {a : A} → or_throw o e ≡ ok a → o ≡ some a
or_throw-eq-ok (some a) e h = cc
or_throw-eq-ok none e h = cc

passes : (b : Bool) (e : Exception) {u : Unit {0}} → throw_if (not b) e ≡ ok u → b ≡ true
passes true e h = refl
passes false e h = cc

module _ (lib : Libraries) (directory : Directory) (checked : Bool) where
  -- Who may hold a token: the service itself, or a user who is known, not locked, and (if the check is
  -- on) a member of the tenant or of one that has subscribed to an app of it.
  pub data MayHold (t : Token) : Type 0 where
    service : t.is_technical ≡ true → t.sub ≡ text "oauth" → MayHold t
    holder :
        (u : User)
        → t.is_technical ≡ false
        → find_user directory t.sub ≡ ok u
        → u.locked ≡ false
        → (checked ≡ true
            → (is_member directory t.tenant_id u.id
                || is_user_subscribed_to_tenant directory u.id t.tenant_id)
              ≡ true)
        → MayHold t

  check_membership-eq-ok :
      (u : User) (tenant_id : Text) {x : Unit {0}}
      → check_membership lib directory checked u tenant_id ≡ ok x
      → (is_member directory tenant_id u.id
          || is_user_subscribed_to_tenant directory u.id tenant_id)
        ≡ true
  unfolding check_membership
  check_membership-eq-ok u tenant_id h = elim (Bool-cases (is_member directory tenant_id u.id)) [
    | inl member ↦ rw member refl
    | inr outside ↦
        let (t, found, h1) = bind-eq-ok (find_tenant directory tenant_id) _ (rw outside at h) in
        let same = find_tenant-id directory tenant_id found in
        let subscribed =
          passes (is_user_subscribed_to_tenant directory u.id t.id) (oauth invalid_token) h1 in
        rw outside (ap (λ x. is_user_subscribed_to_tenant directory u.id x) (sym same) ∙ subscribed)
  ]

  check_holder-eq-ok :
      (t : Token) {r : Token} → check_holder lib directory checked t ≡ ok r → (t ≡ r) × MayHold t
  unfolding check_holder
  check_holder-eq-ok t {r} h = elim (Bool-cases t.is_technical) [
    | inl technical ↦ elim (Bool-cases (t.sub == text "oauth")) [
      | inl named ↦ (
        ok-injective (ground (arith, h)),
        service technical (eq_of_== t.sub (text "oauth") named),
      )
      | inr other ↦ absurd (ground (arith, h))
    ]
    | inr personal ↦ person personal (tail personal h)
  ]
    where
      step : User → Result Token
      step u =
          throw_if u.locked (oauth invalid_token)
          >> ((if checked then check_membership lib directory checked u t.tenant_id else ok tt)
              >> ok t)

      tail :
          t.is_technical ≡ false
          → check_holder lib directory checked t ≡ ok r
          → (find_user directory t.sub >>= step) ≡ ok r
      tail personal h = ground (arith, h)

      wanted :
          (u : User) (b : Bool) {x : Unit {0}}
          → (if b then check_membership lib directory checked u t.tenant_id else ok tt) ≡ ok x
          → b ≡ true
          → (is_member directory t.tenant_id u.id
              || is_user_subscribed_to_tenant directory u.id t.tenant_id)
            ≡ true
      wanted u true h e = check_membership-eq-ok u t.tenant_id h
      wanted u false h e = cc

      person :
          t.is_technical ≡ false → (find_user directory t.sub >>= step) ≡ ok r → (t ≡ r) × MayHold t
      person personal h =
          let (u, found, h1) = bind-eq-ok (find_user directory t.sub) step h in
          let (_, open_, h2) = bind-eq-ok (throw_if u.locked (oauth invalid_token)) _ h1 in
          let (_, member, h3) =
            bind-eq-ok
              (if checked then check_membership lib directory checked u t.tenant_id else ok tt) _
              h2 in
          (
            ok-injective h3,
            holder u personal found (throw_if-eq-ok u.locked (oauth invalid_token) open_)
                (wanted u checked member),
          )

  -- What a token that is accepted has passed.
  pub record IsAccepted (keys : KeyManagement.Table) (token : Text) (t : Token) : Type 0 where
    pub raw : RawClaims
    pub key : Text
    pub decoded : lib.decode token ≡ some raw
    pub complete : has_required raw ≡ true
    pub audience : has_array_aud raw.aud ≡ true
    pub shaped : lib.schema raw ≡ true
    pub active : get_public_key_by_kid raw.kid raw.tenant_id keys ≡ ok key
    pub verified : lib.verify token key ≡ some t
    pub may_hold : MayHold t

  check_token-IsAccepted :
      (keys : KeyManagement.Table) (token : Text) {t : Token}
      → check_token lib directory checked keys token ≡ ok t
      → IsAccepted keys token t
  unfolding check_token
  check_token-IsAccepted keys token {t} h =
      let (raw, decoded, h1) = bind-eq-ok (or_throw (lib.decode token) internal) _ h in
      let (_, complete, h2) = bind-eq-ok (throw_if (not (has_required raw)) internal) _ h1 in
      let (_, audience, h3) = bind-eq-ok (throw_if (not (has_array_aud raw.aud)) internal) _ h2 in
      let (_, shaped, h4) = bind-eq-ok (throw_if (not (lib.schema raw)) internal) _ h3 in
      let (key, active, h5) = bind-eq-ok (get_public_key_by_kid raw.kid raw.tenant_id keys) _ h4 in
      let (payload, verified, h6) = bind-eq-ok (or_throw (lib.verify token key) internal) _ h5 in
      let (same, may_hold) = check_holder-eq-ok payload h6 in
      record {
        raw = raw;
        key = key;
        decoded = or_throw-eq-ok (lib.decode token) internal decoded;
        complete = passes (has_required raw) internal complete;
        audience = passes (has_array_aud raw.aud) internal audience;
        shaped = passes (lib.schema raw) internal shaped;
        active = active;
        verified = or_throw-eq-ok (lib.verify token key) internal verified ∙ ap (λ x. some x) same;
        may_hold = subst MayHold same may_hold;
      }

  accepted-eq-ok :
      (r : Result Token) {t : Token} → or_invalid_token lib directory checked r ≡ ok t → r ≡ ok t
  accepted-eq-ok (ok t) h = h
  accepted-eq-ok (err e) h = cc

  -- An access token is accepted only if it has all required claims with an array as audience, its kid
  -- names an active key of the tenant that it claims, its signature verifies with that key, and its
  -- holder may hold it.
  pub validate_access_token-IsAccepted :
      (keys : KeyManagement.Table) (token : Text) {t : Token}
      → validate_access_token lib directory checked keys token ≡ ok t
      → IsAccepted keys token t
  unfolding validate_access_token
  validate_access_token-IsAccepted keys token h =
      check_token-IsAccepted keys token
        (accepted-eq-ok (check_token lib directory checked keys token) h)

  same_key :
      (keys keys' : KeyManagement.Table) (token : Text) (raw : RawClaims)
      → lib.decode token ≡ some raw
      → get_public_key_by_kid raw.kid raw.tenant_id keys
        ≡ get_public_key_by_kid raw.kid raw.tenant_id keys'
      → validate_access_token lib directory checked keys token
        ≡ validate_access_token lib directory checked keys' token
  unfolding validate_access_token check_token
  same_key keys keys' token raw decoded same = rw (decoded, same) refl

  -- An access token of a tenant that has room for a key is still accepted, as the same token, after the
  -- tenant's key has been rotated.
  pub validate_access_token-rotate_key :
      (sha256_hex : Text → Text) (fresh : Fresh) (now later m : ℕ) (keys : KeyManagement.Table)
      (token : Text) (raw : RawClaims) {key : TenantKey} {t : Token}
      → lib.decode token ≡ some raw
      → active_count raw.tenant_id keys < m
      → (rotate_key sha256_hex (number m) raw.tenant_id fresh now later keys).0 ≡ ok key
      → validate_access_token lib directory checked keys token ≡ ok t
      → validate_access_token lib directory checked
          (rotate_key sha256_hex (number m) raw.tenant_id fresh now later keys).1
          token
        ≡ ok t
  validate_access_token-rotate_key sha256_hex fresh now later m keys token raw {key} {t} decoded
        room turned h =
      let a = validate_access_token-IsAccepted keys token h in
      let same : a.raw ≡ raw = some-injective (sym a.decoded ∙ decoded) in
      let active : get_public_key_by_kid raw.kid raw.tenant_id keys ≡ ok a.key =
        ap (λ (x : RawClaims). get_public_key_by_kid x.kid x.tenant_id keys) (sym same)
        ∙ a.active in
      let kept =
        rotate_key-keeps sha256_hex raw.tenant_id fresh now later m keys raw.kid room turned
          active in
      same_key (rotate_key sha256_hex (number m) raw.tenant_id fresh now later keys).1 keys token
        raw decoded (kept ∙ sym active)
      ∙ h
    where
      some-injective : {x y : RawClaims} → Path (Option RawClaims) (some x) (some y) → x ≡ y
      some-injective e = cc
