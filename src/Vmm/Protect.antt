-- ===== src/Vmm/Protect.antt =====
-- What vmm_mprotect changes.
use ocean_linux.Base.Bits.{bit_not}
use ocean_linux.Vmm.Memory.{Memory}
use ocean_linux.Vmm.Access.{within_area}
use ocean_linux.Vmm.Cut.{flags_at, flags_at-cons}
use ocean_linux.Vmm.{VmArea, AddressSpace, word_mod, vmm_find_vma}
use ocean_linux.Vmm.Sorted.{area_at, within, SortedFrom, area_at-before, vmm_find_vma-eq-area_at}
use ocean_linux.Vmm.Space.{protect_area, protected, vmm_mprotect}
use ocean_linux.Base.{
  ℕ, List, ◌≡◌, some, refl, if◌then◌else◌, ◌∷◌, none, Bool-cases, inl, some_injective, sym, ◌∙◌,
  subst, arith, inr, dec_lt, ltb, false, true, [], ◌≤◌, Bool, ap, ◌+◌, bit_or, bit_and, ◌%◌,
  Option-cases, ◌||◌, ◌<◌,
}

protected-within : (vma : VmArea) (prot a : ℕ) → within (protected vma prot) a ≡ within vma a
unfolding protected
protected-within vma prot a = refl

area_at-behind :
    (vmas : List VmArea) (lo addr : ℕ) (vma : VmArea)
    → SortedFrom lo vmas
    → area_at vmas addr ≡ some vma
    → lo ≤ vma.start
unfolding area_at
area_at-behind [] lo addr vma s e = cc
area_at-behind (v ∷ vmas) lo addr vma (x, y, z) e = elim (Bool-cases (within v addr)) [
  | inl here ↦
      let same : v ≡ vma = some_injective (sym (rw here refl) ∙ e) in
      omega (arith, ap (λ (w : VmArea). w.start) same)
  | inr there ↦ omega (arith, area_at-behind vmas v.end addr vma z (sym (rw there refl) ∙ e))
]

-- The area that holds the address has the new flags at all of its addresses.
protect_area-flags_at :
    (vmas : List VmArea) (lo addr prot a : ℕ) (vma : VmArea)
    → SortedFrom lo vmas
    → area_at vmas addr ≡ some vma
    → flags_at (protect_area vmas addr prot) a
      ≡ (if within vma a then some (protected vma prot).flags else flags_at vmas a)
unfolding protect_area area_at
protect_area-flags_at [] lo addr prot a vma s e = cc
protect_area-flags_at (v ∷ vmas) lo addr prot a vma (x, y, z) e =
    elim (Bool-cases (within v addr)) [
      | inl here ↦
          let same : v ≡ vma = some_injective (sym (rw here refl) ∙ e) in
          subst
            (λ w.
              flags_at (protect_area (v ∷ vmas) addr prot) a
              ≡ (if within w a then some (protected w prot).flags else flags_at (v ∷ vmas) a))
            same
            (rw (here, protect_area)
              (ground (
                arith,
                flags_at-cons (protected v prot) vmas a,
                flags_at-cons v vmas a,
                protected-within v prot a,
              )))
      | inr there ↦
          let found : area_at vmas addr ≡ some vma = sym (rw there refl) ∙ e in
          let ih = protect_area-flags_at vmas v.end addr prot a vma z found in
          elim (dec_lt addr v.end) [
            | yes before ↦
                absurd (none_some (sym (area_at-before v.end addr vmas z before) ∙ found))
            | no behind ↦
                let passed : ltb addr v.start ≡ false = ground arith in
                let w = within_area vmas addr vma found in
                let apart : within v a ≡ true → within vma a ≡ false =
                  λ h. ground (arith, area_at-behind vmas v.end addr vma z found) in
                rw (there, passed, protect_area)
                  (ground (
                    arith,
                    flags_at-cons v (protect_area vmas addr prot) a,
                    flags_at-cons v vmas a,
                    ih,
                  ))
          ]
    ]
  where
    none_some : none ≡ some vma → ⊥
    none_some q = cc

-- What vmm_mprotect does to the areas.
abbrev pub Protects : AddressSpace → ℕ → ℕ → ℕ → AddressSpace → Bool → Type 0
Protects space addr end prot after false =
    (after ≡ space) × ((vma : VmArea) → area_at space.vmas addr ≡ some vma → vma.end < end)
Protects space addr end prot after true =
    (vma : VmArea) × (area_at space.vmas addr ≡ some vma)
    × (end ≤ vma.end)
    × ((a : ℕ)
        → flags_at after.vmas a ≡ (
            if within vma a
            then some (bit_or (bit_and vma.flags (bit_not 32 7)) prot)
            else flags_at space.vmas a))

-- vmm_mprotect on sorted areas, with the end of the range as the code computes it, modulo 2 ^ 64.
-- It succeeds exactly where an area of the space holds the address and that end is not behind the
-- area, so that, unless the end wraps around, the range lies in the area. Then all addresses of that
-- area, those outside the range too, get the flags, and every other address is as before. Where it
-- fails, nothing has changed.
pub vmm_mprotect_lem :
    {M : Type 0} (mem : Memory M) (m : M) (space : AddressSpace) (addr size prot : ℕ)
    → SortedFrom 0 space.vmas
    → let (after_m, after, ok) = vmm_mprotect mem m space addr size prot in
      Protects space addr ((addr + size) % word_mod) prot after ok
unfolding vmm_mprotect protected
vmm_mprotect_lem mem m space addr size prot s =
    let end = (addr + size) % word_mod in
    elim (Option-cases (area_at space.vmas addr)) [
      | inl missing ↦
          let stops : vmm_find_vma space.vmas addr ≡ none =
            vmm_find_vma-eq-area_at 0 addr space.vmas s ∙ missing in
          rw (stops, vmm_mprotect) (refl, λ vma found. absurd (no_area (sym missing ∙ found)))
      | inr (vma, found) ↦
          let stops : vmm_find_vma space.vmas addr ≡ some vma =
            vmm_find_vma-eq-area_at 0 addr space.vmas s ∙ found in
          let w = within_area space.vmas addr vma found in
          elim (Bool-cases (ltb addr vma.start || ltb vma.end end)) [
            | inl outside ↦
                rw (stops, outside, vmm_mprotect)
                  (
                    refl,
                    λ other there.
                        let same : vma ≡ other = some_injective (sym found ∙ there) in
                        subst (λ (x : VmArea). x.end < end) same (ground (arith, outside, w)),
                  )
            | inr covered ↦
                rw (stops, covered, vmm_mprotect)
                  (
                    vma,
                    found,
                    ground arith,
                    λ a. protect_area-flags_at space.vmas 0 addr prot a vma s found,
                  )
          ]
    ]
  where
    no_area : {vma : VmArea} → none ≡ some vma → ⊥
    no_area q = cc
