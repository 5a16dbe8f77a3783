-- ===== src/TenantBits/Tests.antt =====
-- A value that is written twice, read and deleted.
use identity_ghost.Prelude.{◌≡◌, ◌≢◌, refl, true, some, List, [], ◌∷◌, arith, text, Text-discrete}
use identity_ghost.Client.{Tenant}
use identity_ghost.TenantBits.{Slot, TenantBits, add_or_update_key, delete_key, get_key_value}
use identity_ghost.TenantBits.Store.{IsValid, contents}
use identity_ghost.TenantBits.Refinement.{Call, add, delete, run, replay, run_refines}

abbrev known : List Tenant
known =
    record { id = text "t"; domain = text "t.example"; skip_session_confirm = true }
    ∷ record { id = text "o"; domain = text "o.example"; skip_session_confirm = true }
    ∷ []

abbrev color : Slot
color = record { tenant_id = text "t"; owner_tenant_id = text "o"; key = text "color" }

abbrev row : TenantBits
row = record { id = text "b1"; slot = color; value = text "red" }

abbrev calls : List Call
calls =
    add (text "b2") color (text "blue") ∷ delete color ∷ add (text "b3") color (text "green") ∷ []

read_back : get_key_value color (run known calls (row ∷ [])).0 ≡ some (text "green")
unfolding run add_or_update_key delete_key get_key_value Text-discrete
read_back = refl

run_refines_example :
    let (end, outcomes) = run known calls (row ∷ []) in
    IsValid end × (contents end ≡ replay calls outcomes (contents (row ∷ [])))
run_refines_example = run_refines known calls (row ∷ []) (tt, tt)

fresh : text "b1" ≢ text "b2"
fresh h = ground arith
