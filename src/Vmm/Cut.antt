-- ===== src/Vmm/Cut.antt =====
-- The flags of addresses, and what vmm_unmap_region makes of one area that meets the region.
use ocean_linux.Vmm.Region.{cut_area}
use ocean_linux.Vmm.{VmArea}
use ocean_linux.Vmm.Memory.{Memory}
use ocean_linux.Vmm.Sorted.{area_at, SortedFrom, area_at-before, within, SortedFrom-weaken}
use ocean_linux.Base.{
  ℕ, List, Bool, ◌≡◌, leb, ◌&&◌, Option, some, ◌∷◌, ◌≤◌, ltb, if◌then◌else◌, ◌<◌, none, ◌++◌,
  Bool-cases, arith, ◌==◌, inl, inr, refl, [], ◌⊎◌, ◌≢◌, Option-cases,
}

-- The flags of the area that holds an address.
abbrev pub flags_at : List VmArea → ℕ → Option ℕ
flags_at vmas addr = elim (area_at vmas addr) [ none ↦ none | some vma ↦ some vma.flags ]

abbrev pub in_range : ℕ → ℕ → ℕ → Bool
in_range start end addr = leb start addr && ltb addr end

pub flags_at-before :
    (lo addr : ℕ) (vmas : List VmArea) → SortedFrom lo vmas → addr < lo → flags_at vmas addr ≡ none
flags_at-before lo addr vmas s h = rw (area_at-before lo addr vmas s h, flags_at) refl

pub flags_at-cons :
    (vma : VmArea) (vmas : List VmArea) (addr : ℕ)
    → flags_at (vma ∷ vmas) addr ≡ (if within vma addr then some vma.flags else flags_at vmas addr)
unfolding area_at
flags_at-cons vma vmas addr = ground arith

-- One area that meets the region.
pub record Cut (vma : VmArea) (lo unmap_start unmap_end : ℕ) (rest put : List VmArea) : Type 0 where
  pub sorted : SortedFrom lo (put ++ rest)
  pub holds :
      (addr : ℕ)
      → flags_at (put ++ rest) addr ≡ (
          if in_range unmap_start unmap_end addr
          then none
          else if within vma addr
          then some vma.flags
          else flags_at rest addr)

module _ {M : Type 0} (mem : Memory M) where
  module _ (m : M) (vma : VmArea) (lo unmap_start unmap_end : ℕ) (rest : List VmArea)
      (behind : lo ≤ vma.start) (first : vma.start ≤ unmap_start) (meets : unmap_start < vma.end)
      (meets' : vma.start < unmap_end) (last : unmap_end ≤ vma.end)
      (order : unmap_start ≤ unmap_end) (sorted : SortedFrom vma.end rest) where
    -- The area is cut, or it would have to be split and there is no memory.
    pub cut_area-Cut :
        Cut vma lo unmap_start unmap_end rest (cut_area mem m vma unmap_start unmap_end).1
        ⊎ ((vma.start ≢ unmap_start)
            × (unmap_end ≢ vma.end)
            × (mem.vma_alloc m ≡ none)
            × ((cut_area mem m vma unmap_start unmap_end).1 ≡ vma ∷ []))
    unfolding cut_area
    cut_area-Cut = elim (Bool-cases (unmap_start == vma.start)) [
      | inl at_start ↦ elim (Bool-cases (unmap_end == vma.end)) [
        | inl at_end ↦
            rw (at_start, at_end, cut_area)
              (inl (record {
                sorted = SortedFrom-weaken vma.end lo rest (omega arith) sorted;
                holds = λ addr. ground (arith, flags_at-before vma.end addr rest sorted);
              }))
        | inr inside ↦
            rw (at_start, inside, cut_area)
              (inl (record {
                sorted = (ground arith, ground arith, sorted);
                holds = λ addr. ground (
                  arith,
                  flags_at-cons (record vma { start = unmap_end }) rest addr,
                  flags_at-before vma.end addr rest sorted,
                );
              }))
      ]
      | inr later ↦ elim (Bool-cases (unmap_end == vma.end)) [
        | inl at_end ↦
            rw (later, at_end, cut_area)
              (inl (record {
                sorted = (
                  behind,
                  ground arith,
                  SortedFrom-weaken vma.end unmap_start rest (omega arith) sorted,
                );
                holds = λ addr. ground (
                  arith,
                  flags_at-cons (record vma { end = unmap_start }) rest addr,
                  flags_at-before vma.end addr rest sorted,
                );
              }))
        | inr inside ↦ elim (Option-cases (mem.vma_alloc m)) [
          | inl empty ↦
              rw (later, inside, empty, cut_area)
                (inr (
                  λ same. absurd (ground (arith, later, same)),
                  λ same. absurd (ground (arith, inside, same)),
                  refl,
                  refl,
                ))
          | inr (m', got) ↦
              rw (later, inside, got, cut_area)
                (inl (record {
                  sorted = (behind, ground arith, (order, ground arith, sorted));
                  holds = λ addr. ground (
                    arith,
                    flags_at-cons (record vma { end = unmap_start })
                        (record vma { start = unmap_end } ∷ rest) addr,
                    flags_at-cons (record vma { start = unmap_end }) rest addr,
                    flags_at-before vma.end addr rest sorted,
                  );
                }))
        ]
      ]
    ]
