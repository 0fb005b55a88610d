-- ===== src/Capability/Revoke.antt =====
-- What cap_revoke does, and what it leaves in force.
use ocean_linux.Base.Bits.{bit, bit_and-two_pow}
use ocean_linux.Capability.{
  cap_lookup, cap_revoke, Capability, Cspace, has_right, right_revoke, slot_at, type_none,
}
use ocean_linux.Base.{
  ℕ, Bool, ◌≡◌, ◌<◌, some, ◌^◌, ◌==◌, ◌≢◌, arith, false, true, Bool-cases, none, leb, inl, sym, inr,
  ◌∙◌, ap, some_injective, ◌+◌, ◌%◌, refl,
}

-- With success of cap_revoke, the slot held a capability with the right REVOKE (bit 3), no
-- lookup has changed, and every capability that carried the space's generation carries an old one
-- now. With failure, the slot held no such capability, and nothing has changed.
abbrev pub Revokes : Cspace → ℕ → Cspace → Bool → Type 0
Revokes cs i after true =
    ((c : Capability) × (cap_lookup cs i ≡ some c) × (bit c.rights 3 ≡ true))
    × ((j : ℕ) (c : Capability)
        → cap_lookup cs j ≡ some c
        → (cap_lookup after j ≡ some c)
          × (c.generation ≡ cs.generation → c.generation ≢ after.generation))
Revokes cs i after false =
    (after ≡ cs) × ((c : Capability) → cap_lookup cs i ≡ some c → bit c.rights 3 ≡ false)

-- The test of REVOKE is a test of its bit.
has_right-bit : (c : Capability) → has_right c right_revoke ≡ bit c.rights 3
has_right-bit c = ground (arith, bit_and-two_pow c.rights 3)

cap_lookup-slot :
    (cs : Cspace) (i : ℕ)
    → i < cs.size
    → ((slot_at cs i).type == type_none) ≡ false
    → cap_lookup cs i ≡ some (slot_at cs i)
unfolding cap_lookup
cap_lookup-slot cs i inside full = ground (arith, inside, full)

lookup_slot :
    (cs : Cspace) (i : ℕ) (c : Capability)
    → cap_lookup cs i ≡ some c
    → (i < cs.size) × (((slot_at cs i).type == type_none) ≡ false) × (slot_at cs i ≡ c)
unfolding cap_lookup
lookup_slot cs i c e = elim (Bool-cases (leb cs.size i)) [
  | inl outside ↦ absurd (clash (sym (rw (outside, cap_lookup) refl) ∙ e))
  | inr inside ↦ elim (Bool-cases ((slot_at cs i).type == type_none)) [
    | inl free ↦ absurd (clash (sym (rw (inside, free, cap_lookup) refl) ∙ e))
    | inr full ↦ (
      ground (arith, inside),
      full,
      some_injective (sym (rw (inside, full, cap_lookup) refl) ∙ e),
    )
  ]
]
  where
    clash : none ≡ some c → ⊥
    clash q = cc

-- cap_revoke on every path, for a generation that is a number of 32 bits. It succeeds exactly for a
-- slot with a capability that has the right REVOKE (bit 3). Then every capability that carried the
-- space's generation carries an old one, and cap_lookup finds all of them as before. A failure
-- changes nothing.
pub cap_revoke_lem :
    (cs : Cspace) (i : ℕ)
    → cs.generation < 2 ^ 32
    → let (after, ok) = cap_revoke cs i in Revokes cs i after ok
unfolding cap_revoke cap_lookup
cap_revoke_lem cs i small = elim (Bool-cases (leb cs.size i)) [
  | inl outside ↦
      rw (outside, cap_revoke)
        (refl, λ c e. absurd (ground (arith, outside, (lookup_slot cs i c e).0)))
  | inr inside ↦ elim (Bool-cases ((slot_at cs i).type == type_none)) [
    | inl free ↦
        rw (inside, free, cap_revoke)
          (refl, λ c e. absurd (ground (arith, free, (lookup_slot cs i c e).1)))
    | inr full ↦ elim (Bool-cases (has_right (slot_at cs i) right_revoke)) [
      | inr missing ↦
          rw (inside, full, missing, cap_revoke)
            (
              refl,
              λ c e.
                  ap (λ (x : Capability). bit x.rights 3) (sym (lookup_slot cs i c e).2)
                  ∙ sym (has_right-bit (slot_at cs i))
                  ∙ missing,
            )
      | inl present ↦
          rw (inside, full, present, cap_revoke)
            (
              (
                slot_at cs i,
                cap_lookup-slot cs i (ground (arith, inside)) full,
                sym (has_right-bit (slot_at cs i)) ∙ present,
              ),
              λ j c e. (
                same_lookup ((cs.generation + 1) % 2 ^ 32) j c e,
                λ current stale. absurd (omega (arith, small, current, stale)),
              ),
            )
    ]
  ]
]
  where
    same_lookup :
        (generation j : ℕ) (c : Capability)
        → cap_lookup cs j ≡ some c
        → cap_lookup (record cs { generation = generation }) j ≡ some c
    same_lookup generation j c e = e
