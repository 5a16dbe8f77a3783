-- ===== src/KeyManagement/Tests.antt =====
-- A tenant whose key is rotated, with the identity in place of the hash.
use identity_ghost.Prelude.{
  ℕ, ◌≤◌, ◌≡◌, refl, true, false, none, some, [], ◌∷◌, arith, Text, text, number, Text-discrete,
  find, update_where,
}
use identity_ghost.Errors.{Result, ok, err, not_found, internal}
use identity_ghost.KeyManagement.{
  TenantKey, Table, Fresh, has_kid, get_current_signing_key, get_public_key_by_kid,
  create_initial_key, rotate_key, deactivate_expired_keys,
}
use identity_ghost.KeyManagement.Rows.{IsValid, rotate_key-IsValid}
use identity_ghost.KeyManagement.Loops.{is_past_window, deactivate_expired_keys-update_where}
use identity_ghost.KeyManagement.Limit.{active_count}
use identity_ghost.KeyManagement.Rotated.{rotate_key-bound}
use identity_ghost.KeyManagement.Overlap.{rotate_key-keeps, rotate_key-unsaved}

abbrev hash : Text → Text
hash s = s

abbrev first : TenantKey
first = record {
  id = text "k1";
  tenant_id = text "t";
  key_version = 1;
  kid = text "t:1";
  public_key = text "pub1";
  private_key = text "priv1";
  is_current = true;
  superseded_at = none;
  deactivated_at = none;
}

abbrev keys : Table
keys = first ∷ []

keys-IsValid : IsValid keys
keys-IsValid = (tt, tt)

abbrev drawn : Fresh
drawn = record { row_id = text "k2"; public_key = text "pub2"; private_key = text "priv2" }

-- A draw whose row id is taken.
abbrev clashing : Fresh
clashing = record { row_id = text "k1"; public_key = text "pub2"; private_key = text "priv2" }

abbrev second : TenantKey
second = record {
  id = text "k2";
  tenant_id = text "t";
  key_version = 2;
  kid = text "t:2";
  public_key = text "pub2";
  private_key = text "priv2";
  is_current = true;
  superseded_at = none;
  deactivated_at = none;
}

abbrev rotated : ℕ → Result TenantKey × Table
rotated m = rotate_key hash (number m) (text "t") drawn 10 11 keys

returned : (rotated 2).0 ≡ ok second
unfolding rotate_key Text-discrete
returned = refl

returned_at_one : (rotated 1).0 ≡ ok second
unfolding rotate_key Text-discrete
returned_at_one = refl

created :
    (create_initial_key hash
      (text "t")
      (record { row_id = text "k1"; public_key = text "pub1"; private_key = text "priv1" })
      [])
    ≡ (ok first, keys)
unfolding create_initial_key
created = refl

rotate_key-IsValid_example : IsValid (rotated 2).1
rotate_key-IsValid_example =
    rotate_key-IsValid hash (number 2) (text "t") drawn 10 11 keys keys-IsValid

rotate_key-bound_example : active_count (text "t") (rotated 1).1 ≤ 1
rotate_key-bound_example = rotate_key-bound hash (text "t") drawn 10 11 1 keys returned_at_one

resolved : get_public_key_by_kid (text "t:1") (text "t") keys ≡ ok (text "pub1")
unfolding get_public_key_by_kid Text-discrete
resolved = refl

rotate_key-keeps_example :
    get_public_key_by_kid (text "t:1") (text "t") (rotated 2).1 ≡ ok (text "pub1")
unfolding Text-discrete
rotate_key-keeps_example =
    rotate_key-keeps hash (text "t") drawn 10 11 2 keys (text "t:1") (omega arith) returned resolved

unsaved : (rotate_key hash (number 2) (text "t") clashing 10 11 keys).0 ≡ err internal
unfolding rotate_key Text-discrete
unsaved = refl

rotate_key-unsaved_example :
    let t' = (rotate_key hash (number 2) (text "t") clashing 10 11 keys).1 in
    (get_current_signing_key (text "t") t' ≡ err not_found)
    × ((fresh' : Fresh) (now' later' : ℕ)
        → rotate_key hash (number 2) (text "t") fresh' now' later' t' ≡ (err not_found, t'))
rotate_key-unsaved_example =
    rotate_key-unsaved hash (text "t") clashing 10 11 (number 2) keys unsaved

abbrev old : TenantKey
old = record first { is_current = false; superseded_at = some 10 }

deactivate_expired_keys-update_where_example :
    deactivate_expired_keys (some 3600) 20 keys
    ≡ update_where (is_past_window (some 3600) 20) (λ k. record k { deactivated_at = some 20 }) keys
deactivate_expired_keys-update_where_example =
    deactivate_expired_keys-update_where (some 3600) 20 keys keys-IsValid

old_found : find (has_kid (text "t:1") (text "t")) (old ∷ []) ≡ some old
unfolding Text-discrete
old_found = refl
