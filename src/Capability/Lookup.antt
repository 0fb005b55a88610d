-- ===== src/Capability/Lookup.antt =====
-- What cap_lookup sees after the operations on one space.
use ocean_linux.Capability.Slots.{occupied}
use ocean_linux.Base.{
  ℕ, ◌≡◌, true, ◌<◌, arith, some, if◌then◌else◌, none, ◌==◌, get_or-set, Option-cases, inl, inr,
  subst, sym,
}
use ocean_linux.Capability.{
  Capability, Cspace, cap_lookup, cap_insert, fill_slot, cap_delete, cap_revoke, cspace_mark_free,
  cspace_find_free_slot, empty_cap,
}
use ocean_linux.Capability.Invariant.{IsValid, free_slot}

-- The stored form of a capability: with the slot's number and the space's generation.
abbrev pub stored : Cspace → ℕ → Capability → Capability
stored cs i c = record c { slot = i; generation = cs.generation }

pub cap_lookup-fill_slot :
    {cs : Cspace}
    → IsValid cs
    → (i : ℕ) (c : Capability) → i < cs.size
    → occupied c ≡ true
    → (j : ℕ)
    → cap_lookup (fill_slot cs i c) j ≡ (if i == j then some (stored cs i c) else cap_lookup cs j)
unfolding cap_lookup fill_slot
cap_lookup-fill_slot {cs} v i c inside full j =
    ground (arith, v.sized, get_or-set cs.slots i j (stored cs i c) empty_cap)

-- A capability that cap_insert stores is found in its slot, and no other slot changes.
pub cap_lookup-cap_insert :
    {cs : Cspace}
    → IsValid cs
    → (c : Capability) (i : ℕ) → occupied c ≡ true
    → (cap_insert cs c).1 ≡ some i
    → (cap_lookup cs i ≡ none)
      × ((j : ℕ)
          → cap_lookup (cap_insert cs c).0 j
            ≡ (if i == j then some (stored cs i c) else cap_lookup cs j))
unfolding cap_insert
cap_lookup-cap_insert {cs} v c i full e = elim (Option-cases (cspace_find_free_slot cs)) [
  | inl none_free ↦ ground arith
  | inr (k, ek) ↦
      let free = free_slot v ek in
      let same : k ≡ i = ground arith in
      (
        unfold cap_lookup in ground arith,
        λ j.
            rw (ek, cap_insert)
              (subst
                (λ n.
                  cap_lookup (fill_slot cs n c) j
                  ≡ (if i == j then some (stored cs i c) else cap_lookup cs j))
                (sym same) (cap_lookup-fill_slot v i c (omega (arith, free.0)) full j)),
      )
]

-- After cap_delete the slot is empty, and no other slot has changed.
pub cap_lookup-cap_delete :
    {cs : Cspace}
    → IsValid cs
    → (i j : ℕ) → cap_lookup (cap_delete cs i).0 j ≡ (if i == j then none else cap_lookup cs j)
unfolding cap_lookup cap_delete cspace_mark_free
cap_lookup-cap_delete {cs} v i j =
    ground (arith, v.sized, get_or-set cs.slots i j empty_cap empty_cap)

-- cap_revoke leaves every lookup as it was.
pub cap_lookup-cap_revoke :
    (cs : Cspace) (i j : ℕ) → cap_lookup (cap_revoke cs i).0 j ≡ cap_lookup cs j
unfolding cap_lookup cap_revoke
cap_lookup-cap_revoke cs i j = ground arith

-- A failed cap_insert changes nothing.
pub cap_insert-none :
    {cs : Cspace} (c : Capability) → (cap_insert cs c).1 ≡ none → (cap_insert cs c).0 ≡ cs
unfolding cap_insert
cap_insert-none c e = ground arith
