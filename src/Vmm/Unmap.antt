-- ===== src/Vmm/Unmap.antt =====
-- What vmm_unmap_region takes away: the addresses of the region, and no others.
use ocean_linux.Vmm.Region.{cut_area, vmm_unmap_region, unmap_areas, unmap_pages, pages}
use ocean_linux.Vmm.{VmArea, AddressSpace, word_mod}
use ocean_linux.Vmm.Cut.{flags_at, in_range, Cut, cut_area-Cut, flags_at-cons, flags_at-before}
use ocean_linux.Vmm.Memory.{Memory}
use ocean_linux.Vmm.Sorted.{area_at, SortedFrom, area_at-before, within}
use ocean_linux.Base.{
  ℕ, List, ◌≡◌, leb, some, ◌∷◌, ◌≤◌, ltb, if◌then◌else◌, ◌<◌, none, ◌++◌, Bool-cases, arith, inl,
  inr, refl, [], ◌+◌, ◌%◌, true, sym, ◌⊎◌, false, ap, ◌∙◌, subst,
}

-- A region in the middle of an area that could not be split, for want of memory: the areas are as
-- they were.
pub record NotSplit {M : Type 0} (mem : Memory M) (memory : M) (vmas after : List VmArea)
    (start end : ℕ) : Type 0 where
  pub vma : VmArea
  pub found : area_at vmas start ≡ some vma
  pub begins : vma.start < start
  pub ends : end < vma.end
  pub no_memory : mem.vma_alloc memory ≡ none
  pub unchanged : after ≡ vmas

module _ {M : Type 0} (mem : Memory M) where
  -- What the loop over the areas leaves.
  record Cleared (vmas after : List VmArea) (lo start end : ℕ) : Type 0 where
    sorted : SortedFrom lo after
    holds :
        (addr : ℕ)
        → flags_at after addr ≡ (if in_range start end addr then none else flags_at vmas addr)

  pass_area :
      (vma : VmArea) (vmas after : List VmArea) (lo start end : ℕ)
      → lo ≤ vma.start
      → vma.start < vma.end
      → vma.end ≤ start
      → Cleared vmas after vma.end start end
      → Cleared (vma ∷ vmas) (vma ∷ after) lo start end
  pass_area vma vmas after lo start end a b h c = record {
    sorted = (a, b, c.sorted);
    holds = λ addr.
        ground (arith, flags_at-cons vma after addr, flags_at-cons vma vmas addr, c.holds addr);
  }

  Cut-Cleared :
      (put : List VmArea) (vma : VmArea) (vmas after : List VmArea) (lo start end : ℕ)
      → start ≤ end
      → SortedFrom vma.end vmas
      → Cleared vmas after vma.end start end
      → let unmap_start = (if ltb start vma.start then vma.start else start) in
        let unmap_end = (if ltb vma.end end then vma.end else end) in
        Cut vma lo unmap_start unmap_end after put
        → Cleared (vma ∷ vmas) (put ++ after) lo start end
  Cut-Cleared put vma vmas after lo start end order sorted c cut = record {
    sorted = cut.sorted;
    holds = λ addr. ground (
      arith,
      cut.holds addr,
      c.holds addr,
      flags_at-cons vma vmas addr,
      flags_at-before vma.end addr vmas sorted,
    );
  }

  -- The loop stops at an area behind the region.
  unmap_areas-behind :
      (vmas : List VmArea) (m : M) (pml4 lo start end count unmapped : ℕ)
      → end ≤ lo
      → SortedFrom lo vmas
      → (unmap_areas mem m pml4 vmas start end count unmapped).areas ≡ vmas
  unfolding unmap_areas
  unmap_areas-behind [] m pml4 lo start end count unmapped order s = refl
  unmap_areas-behind (vma ∷ vmas) m pml4 lo start end count unmapped order (a, b, c) =
      let past : leb end vma.start ≡ true = ground (arith, order, a) in rw (past, unmap_areas) refl

  -- How the loop ends.
  abbrev Outcome : M → List VmArea → List VmArea → ℕ → ℕ → ℕ → Type 0
  Outcome memory vmas after lo start end =
      Cleared vmas after lo start end ⊎ NotSplit mem memory vmas after start end

  -- The loop behind the first area that meets the region clears what is left of it.
  rest-Cleared :
      (memory : M) (vmas after : List VmArea) (lo start end : ℕ)
      → SortedFrom lo vmas
      → start < lo
      → Outcome memory vmas after lo start end
      → Cleared vmas after lo start end
  rest-Cleared memory vmas after lo start end s low (inl c) = c
  rest-Cleared memory vmas after lo start end s low (inr n) =
      absurd (no_area (sym (area_at-before lo start vmas s low) ∙ n.found))
    where
      no_area : {vma : VmArea} → none ≡ some vma → ⊥
      no_area q = cc

  pass_outcome :
      (memory : M) (vma : VmArea) (vmas after : List VmArea) (lo start end : ℕ)
      → lo ≤ vma.start
      → vma.start < vma.end
      → vma.end ≤ start
      → Outcome memory vmas after vma.end start end
      → Outcome memory (vma ∷ vmas) (vma ∷ after) lo start end
  unfolding area_at
  pass_outcome memory vma vmas after lo start end a b h (inl c) =
      inl (pass_area vma vmas after lo start end a b h c)
  pass_outcome memory vma vmas after lo start end a b h (inr n) =
      let past : within vma start ≡ false = ground (arith, h) in
      inr (record {
        vma = n.vma;
        found = rw past n.found;
        begins = n.begins;
        ends = n.ends;
        no_memory = n.no_memory;
        unchanged = ap (λ vs. vma ∷ vs) n.unchanged;
      })

  cut_outcome :
      (m memory later_memory : M) (vma : VmArea) (vmas after : List VmArea) (lo start end : ℕ)
      → lo ≤ vma.start
      → vma.start < vma.end
      → start < vma.end
      → vma.start < end
      → start ≤ end
      → SortedFrom vma.end vmas
      → Outcome later_memory vmas after vma.end start end
      → (end ≤ vma.end → after ≡ vmas)
      → (vma.start ≤ start → end ≤ vma.end → m ≡ memory)
      → let unmap_start = (if ltb start vma.start then vma.start else start) in
        let unmap_end = (if ltb vma.end end then vma.end else end) in
        Outcome memory
          (vma ∷ vmas)
          ((cut_area mem m vma unmap_start unmap_end).1 ++ after)
          lo
          start
          end
  unfolding area_at
  cut_outcome m memory later_memory vma vmas after lo start end a b h k order sorted o stops same =
      let unmap_start : ℕ = (if ltb start vma.start then vma.start else start) in
      let unmap_end : ℕ = (if ltb vma.end end then vma.end else end) in
      let put = (cut_area mem m vma unmap_start unmap_end).1 in
      let c = rest-Cleared later_memory vmas after vma.end start end sorted h o in
      elim (cut_area-Cut mem m vma lo unmap_start unmap_end after a (ground arith) (ground arith)
        (ground arith) (ground arith) (ground arith) c.sorted) [
          | inl cut ↦ inl (Cut-Cleared put vma vmas after lo start end order sorted c cut)
          | inr (later, inside, empty, kept) ↦
              let begins : vma.start < start = ground (arith, later) in
              let ends : end < vma.end = ground (arith, inside) in
              let here : within vma start ≡ true = ground (arith, begins, h) in
              inr (record {
                vma = vma;
                found = rw here refl;
                begins = begins;
                ends = ends;
                no_memory =
                    subst (λ x. mem.vma_alloc x ≡ none)
                      (same (omega (arith, begins)) (omega (arith, ends))) empty;
                unchanged =
                    ap (λ vs. vs ++ after) kept ∙ ap (λ vs. vma ∷ vs) (stops (omega (arith, ends)));
              })
        ]

  unmap_areas-Outcome :
      (vmas : List VmArea) (m : M) (pml4 lo start end count unmapped : ℕ)
      → start ≤ end
      → SortedFrom lo vmas
      → Outcome
          (unmap_pages mem m pml4 (pages start end) start unmapped).0
          vmas
          (unmap_areas mem m pml4 vmas start end count unmapped).areas
          lo
          start
          end
  unfolding unmap_areas
  unmap_areas-Outcome [] m pml4 lo start end count unmapped order s =
      inl (record { sorted = tt; holds = λ addr. unfold area_at in ground arith })
  unmap_areas-Outcome (vma ∷ vmas) m pml4 lo start end count unmapped order (a, b, c) =
      elim (Bool-cases (leb end vma.start)) [
        | inl past ↦
            rw (past, unmap_areas)
              (inl (record {
                sorted = (a, b, c);
                holds = λ addr.
                    ground (arith, flags_at-before vma.start addr (vma ∷ vmas) (omega arith, b, c));
              }))
        | inr meets ↦ elim (Bool-cases (leb vma.end start)) [
          | inl before ↦
              rw (meets, before, unmap_areas)
                (pass_outcome _ vma vmas _ lo start end a b (ground arith)
                  (unmap_areas-Outcome vmas m pml4 vma.end start end count unmapped order c))
          | inr overlaps ↦
              rw (meets, overlaps, unmap_areas)
                (cut_outcome _ _ _ vma vmas _ lo start end a b (ground arith) (ground arith) order c
                  (unmap_areas-Outcome vmas _ pml4 vma.end start end _ _ order c)
                  (λ inside. unmap_areas-behind vmas _ pml4 vma.end start end _ _ inside c)
                  (λ from to.
                    let at_start : ltb start vma.start ≡ false = ground (arith, from) in
                    let at_end : ltb vma.end end ≡ false = ground (arith, to) in
                    rw (at_start, at_end) refl))
        ]
      ]

  -- vmm_unmap_region of a region that does not wrap around, on sorted areas, with or without memory
  -- for another area. Afterwards the areas are sorted, and either no area holds an address of the
  -- region and every other address has the flags that it had, or the region lay in the middle of an
  -- area, vma_alloc had no memory after its pages were freed, and the areas are as they were.
  pub vmm_unmap_region_lem :
      (m : M) (space : AddressSpace) (start size : ℕ)
      → start + size < word_mod
      → SortedFrom 0 space.vmas
      → let after = (vmm_unmap_region mem m space start size).1 in
        SortedFrom 0 after.vmas
        × (((addr : ℕ)
              → flags_at after.vmas addr
                ≡ (if in_range start (start + size) addr then none else flags_at space.vmas addr))
            ⊎ NotSplit mem
                (unmap_pages mem m space.pml4 (pages start (start + size)) start 0).0
                space.vmas
                after.vmas
                start
                (start + size))
  unfolding vmm_unmap_region
  vmm_unmap_region_lem m space start size fits s =
      let end : (start + size) % word_mod ≡ start + size = omega arith in
      let o =
        unmap_areas-Outcome space.vmas m space.pml4 0 start (start + size) space.vma_count 0
          (omega arith) s in
      rw end (elim o [
        | inl c ↦ (c.sorted, inl c.holds)
        | inr n ↦ (subst (SortedFrom 0) (sym n.unchanged) s, inr n)
      ])
