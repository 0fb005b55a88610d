-- ===== src/Capability/Tests.antt =====
-- Runs of the capability operations, and the theorems at concrete inputs.
use ocean_linux.Capability.Revoke.{Revokes, cap_revoke_lem}
use ocean_linux.Capability.Rights.{cap_check_rights_iff}
use ocean_linux.Base.Bits.{bit}
use ocean_linux.Capability.Lookup.{cap_lookup-cap_delete, stored, cap_lookup-cap_insert}
use ocean_linux.Capability.Steps.{run, step, run-AllValid, Call, at_space, mint, revoke, delete}
use ocean_linux.Capability.Authority.{Right, Held, AnyCreates, run_authority}
use ocean_linux.Capability.Slots.{count, occupied}
use ocean_linux.Base.BitArray.{test_bit}
use ocean_linux.Capability.Transfer.{AllValid, Transferred, cap_copy_lem, cap_mint_lem, cap_at}
use ocean_linux.Base.{
  ℕ, ◌≡◌, refl, ◌∷◌, List, get_elem?, none, [], some, get_or, ◌↔◌, subst, ◌<◌, some_injective, ◌^◌,
  suc, arith, ◌-◌, zero, if◌then◌else◌, ◌==◌, ◌⊎◌, true, bit_and,
}
use ocean_linux.Capability.{
  Capability, Cspace, cap_insert, cap_mint, empty_cap, transfer, choose_slot, cspace_find_free_slot,
  find_free_from, slot_at, cap_lookup, cap_copy, cap_revoke, minted, cap_delete, cspace_mark_free,
  fill_slot, cap_check_rights,
}
use ocean_linux.Capability.Invariant.{IsValid, cap_insert-none_iff}

-- A space of two slots whose first holds an endpoint with all rights of the first six bits.
abbrev endpoint_cap : Capability
endpoint_cap = record empty_cap { type = 1; rights = 63; object = 7000; generation = 1 }

abbrev small_space : Cspace
small_space = record {
  slots = endpoint_cap ∷ empty_cap ∷ [];
  size = 2;
  used = 1;
  bitmap = 1 ∷ [];
  generation = 1;
}

small_space-IsValid : IsValid small_space
unfolding test_bit count
small_space-IsValid = record {
  sized = refl;
  small = omega arith;
  room = omega arith;
  words = words;
  marked = marked;
  counted = refl;
}
  where
    words : (k : ℕ) → get_or {A = ℕ} (1 ∷ []) k 0 < 2 ^ 64
    words zero = omega arith
    words (suc k) = omega arith

    marked : (i : ℕ) → i < 2 → test_bit (1 ∷ []) i ≡ occupied (slot_at small_space i)
    marked zero h = refl
    marked (suc zero) h = refl
    marked (suc (suc i)) h = absurd (omega arith)

abbrev spaces_two : List Cspace
spaces_two = small_space ∷ small_space ∷ []

spaces_two-AllValid : AllValid spaces_two
spaces_two-AllValid = record { each = each }
  where
    each : (p : ℕ) (cs : Cspace) → get_elem? spaces_two p ≡ some cs → IsValid cs
    each zero cs e = subst IsValid (some_injective e) small_space-IsValid
    each (suc zero) cs e = subst IsValid (some_injective e) small_space-IsValid
    each (suc (suc p)) cs e = cc

abbrev minted_cap : Capability
minted_cap = record endpoint_cap { rights = 16; badge = 9; slot = 1 }

-- A mint of the SEND right alone into the other space.
mint_run : (cap_mint spaces_two 1 (2 ^ 32 - 1) 0 0 16 9).1 ≡ some 1
unfolding cap_mint transfer choose_slot cspace_find_free_slot find_free_from test_bit
mint_run = refl

cap_insert-none_iff_example :
    ((cap_insert small_space endpoint_cap).1 ≡ none) ↔ (small_space.used ≡ small_space.size)
cap_insert-none_iff_example = cap_insert-none_iff endpoint_cap small_space-IsValid

cap_lookup-cap_insert_example :
    (cap_lookup small_space 1 ≡ none)
    × ((j : ℕ)
        → cap_lookup (cap_insert small_space endpoint_cap).0 j
          ≡ (if 1 == j then some (stored small_space 1 endpoint_cap) else cap_lookup small_space j))
unfolding cap_insert cspace_find_free_slot find_free_from test_bit
cap_lookup-cap_insert_example = cap_lookup-cap_insert small_space-IsValid endpoint_cap 1 refl refl

cap_lookup-cap_delete_example : cap_lookup (cap_delete small_space 0).0 0 ≡ none
cap_lookup-cap_delete_example = cap_lookup-cap_delete small_space-IsValid 0 0

cap_revoke_lem_example :
    let (after, ok) = cap_revoke small_space 0 in Revokes small_space 0 after ok
cap_revoke_lem_example = cap_revoke_lem small_space 0 (omega arith)

abbrev after_mint : List Cspace
after_mint = (cap_mint spaces_two 1 (2 ^ 32 - 1) 0 0 16 9).0

cap_mint_lem_example :
    Transferred
      (λ c. record c { rights = bit_and c.rights 16; badge = 9 })
      spaces_two
      after_mint
      1
      1
      0
      0
unfolding cap_mint transfer choose_slot cspace_find_free_slot find_free_from test_bit
cap_mint_lem_example = cap_mint_lem spaces_two-AllValid 1 (2 ^ 32 - 1) 0 0 1 16 9 refl

cap_copy_lem_example : Transferred (λ c. c) spaces_two (cap_copy spaces_two 1 1 0 0).0 1 1 0 0
unfolding cap_copy transfer choose_slot
cap_copy_lem_example = cap_copy_lem spaces_two-AllValid 1 1 0 0 1 refl

abbrev history : List Call
history = mint 1 (2 ^ 32 - 1) 0 0 16 9 ∷ revoke 0 0 ∷ delete 0 0 ∷ []

run-AllValid_example : AllValid (run spaces_two history)
run-AllValid_example = run-AllValid spaces_two history spaces_two-AllValid

abbrev send_right : Right
send_right = record { type = 1; object = 7000; right = 4 }

send-Held : Held (run spaces_two history) send_right
unfolding run step at_space cap_mint cap_revoke cap_delete cspace_mark_free transfer choose_slot
    minted fill_slot cspace_find_free_slot find_free_from test_bit cap_at cap_lookup bit
send-Held = record {
  space = 1;
  slot = 1;
  holder = minted_cap;
  found = refl;
  gives = (refl, refl, refl);
}

run_authority_example : Held spaces_two send_right ⊎ AnyCreates history send_right
run_authority_example = run_authority spaces_two history send_right spaces_two-AllValid send-Held

cap_check_rights_example :
    (cap_check_rights (some endpoint_cap) 20 ≡ true) ↔ ((i : ℕ) → bit 20 i ≡ true → bit 63 i ≡ true)
cap_check_rights_example = cap_check_rights_iff endpoint_cap 20 (omega arith) (omega arith)
