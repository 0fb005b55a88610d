-- ===== src/Vmm/Region.antt =====
-- kernel/mm/vmm.c: mapping and unmapping regions of an address space, and paging_map_range of
-- kernel/arch/x86_64/mm/paging.c. A loop over the pages of a range takes as many rounds as the
-- range has pages, the last one perhaps in part; the address stays below 2 ^ 64 in it if the end
-- is at most 2 ^ 64 - 4096, as it is for ranges of user space.
use ocean_linux.Vmm.{
  VmArea, vma_to_pte_flags, word_mod, AddressSpace, page_size, vma_find_intersect, vma_insert,
  pte_present, has_flag, pte_addr_mask,
}
use ocean_linux.Vmm.Memory.{Memory}
use ocean_linux.Base.{
  ℕ, ◌-◌, Bool, List, suc, none, Option, ◌+◌, if◌then◌else◌, ◌%◌, some, ◌∷◌, true, ◌/◌, not, ◌==◌,
  ltb, zero, false, leb, ◌&&◌, ◌++◌, [], bit_and,
}

-- The rounds of `for (addr = start; addr < end; addr += PAGE_SIZE)`.
abbrev pub pages : ℕ → ℕ → ℕ
pages start end = (end - start + (page_size - 1)) / page_size

module _ {M : Type 0} (mem : Memory M) where
  abbrev pub to_phys : ℕ → ℕ
  to_phys page = (page + word_mod - mem.hhdm_offset) % word_mod

  -- Free the page that an entry maps, if it is present: the memory and the number of pages freed.
  unfoldable pub free_mapped : M → ℕ → ℕ → M × ℕ
  free_mapped m pml4 addr = elim (mem.get_pte m pml4 addr) [
    | none ↦ (m, 0)
    | some pte ↦
        if has_flag pte pte_present
        then (mem.free_page m ((bit_and pte pte_addr_mask + mem.hhdm_offset) % word_mod), 1)
        else (m, 0)
  ]

  -- The loop over the pages of the part of an area that is unmapped, with the rounds left.
  unfoldable pub unmap_pages : M → ℕ → ℕ → ℕ → ℕ → M × ℕ
  unfolding free_mapped
  unmap_pages m pml4 zero addr unmapped = (m, unmapped)
  unmap_pages m pml4 (suc n) addr unmapped =
      let (freed, count) = free_mapped m pml4 addr in
      unmap_pages (mem.unmap_page freed pml4 addr) pml4 n (addr + page_size) (unmapped + count)

  -- What becomes of one area: the areas that stand in its place, with the change of vma_count.
  unfoldable pub cut_area : M → VmArea → ℕ → ℕ → M × List VmArea × ℕ
  cut_area m vma unmap_start unmap_end =
      if (unmap_start == vma.start) && (unmap_end == vma.end)
      then (mem.vma_free m, [], word_mod - 1)
      else if unmap_start == vma.start
      then (m, record vma { start = unmap_end } ∷ [], 0)
      else if unmap_end == vma.end
      then (m, record vma { end = unmap_start } ∷ [], 0)
      else elim (mem.vma_alloc m) [
        | none ↦ (m, vma ∷ [], 0)
        | some m' ↦
            (m', record vma { end = unmap_start } ∷ record vma { start = unmap_end } ∷ [], 1)
      ]

  -- What the loop over the areas has when it ends.
  pub record Unmapped : Type 0 where
    pub memory : M
    pub areas : List VmArea
    pub count : ℕ
    pub unmapped_pages : ℕ

  unfoldable pub unmap_areas : M → ℕ → List VmArea → ℕ → ℕ → ℕ → ℕ → Unmapped
  unfolding unmap_pages cut_area
  unmap_areas m pml4 [] start end count unmapped = record {
    memory = m;
    areas = [];
    count = count;
    unmapped_pages = unmapped;
  }
  unmap_areas m pml4 (vma ∷ vmas) start end count unmapped =
      let unmap_start = (if ltb start vma.start then vma.start else start) in
      let unmap_end = (if ltb vma.end end then vma.end else end) in
      let (m1, freed) = unmap_pages m pml4 (pages unmap_start unmap_end) unmap_start unmapped in
      let (m2, put, change) = cut_area m1 vma unmap_start unmap_end in
      let skipped = unmap_areas m pml4 vmas start end count unmapped in
      let rest = unmap_areas m2 pml4 vmas start end ((count + change) % word_mod) freed in
      if leb end vma.start
      then record { memory = m; areas = vma ∷ vmas; count = count; unmapped_pages = unmapped }
      else if leb vma.end start
      then record skipped { areas = vma ∷ skipped.areas }
      else record rest { areas = put ++ rest.areas }

  unfoldable pub vmm_unmap_region : M → AddressSpace → ℕ → ℕ → M × AddressSpace
  unfolding unmap_areas
  vmm_unmap_region m space start size =
      let end = (start + size) % word_mod in
      let out = unmap_areas m space.pml4 space.vmas start end space.vma_count 0 in
      (
        out.memory,
        record space {
          vmas = out.areas;
          vma_count = out.count;
          total_vm = space.total_vm - out.unmapped_pages;
        },
      )

  -- The loop that allocates and maps the pages of a new area. Where a page cannot be had or
  -- mapped, the address at which it stops.
  unfoldable pub map_pages : M → ℕ → ℕ → ℕ → ℕ → M × Option ℕ
  map_pages m pml4 pte_flags zero addr = (m, none)
  map_pages m pml4 pte_flags (suc n) addr = elim (mem.get_free_page m) [
    | none ↦ (m, some addr)
    | some (page, m1) ↦
        let (m2, mapped) = mem.map_page m1 pml4 addr (to_phys page) pte_flags in
        let rest = map_pages (mem.zero_page m2 page) pml4 pte_flags n (addr + page_size) in
        if not mapped then (mem.free_page m2 page, some addr) else rest
  ]

  abbrev pub new_area : ℕ → ℕ → ℕ → VmArea
  new_area start end flags = record {
    start = start;
    end = end;
    flags = flags;
    page_prot = vma_to_pte_flags flags;
  }

  -- The result is true for 0 and false for -1.
  unfoldable pub vmm_map_region : M → AddressSpace → ℕ → ℕ → ℕ → M × AddressSpace × Bool
  unfolding vmm_unmap_region map_pages
  vmm_map_region m space start size flags =
      let end = (start + size) % word_mod in
      elim (vma_find_intersect space.vmas start end) [
        | some vma ↦ (m, space, false)
        | none ↦ elim (mem.vma_alloc m) [
          | none ↦ (m, space, false)
          | some m1 ↦
              let added = vma_insert space (new_area start end flags) in
              let (m2, stopped) =
                map_pages m1 space.pml4 (vma_to_pte_flags flags) (pages start end) start in
              elim stopped [
                | some addr ↦
                    let (m3, undone) = vmm_unmap_region m2 added start (addr - start) in
                    (m3, undone, false)
                | none ↦ (
                  m2,
                  record added { total_vm = (added.total_vm + size / page_size) % word_mod },
                  true,
                )
              ]
        ]
      ]

  -- The loop of paging_map_range, and its rollback.
  unfoldable pub unmap_back : M → ℕ → ℕ → ℕ → M
  unmap_back m pml4 zero addr = m
  unmap_back m pml4 (suc n) addr = unmap_back (mem.unmap_page m pml4 addr) pml4 n (addr + page_size)

  unfoldable pub map_range_from : M → ℕ → ℕ → ℕ → ℕ → ℕ → ℕ → M × Bool
  unfolding unmap_back
  map_range_from m pml4 virt flags zero addr phys = (m, true)
  map_range_from m pml4 virt flags (suc n) addr phys =
      let (m1, mapped) = mem.map_page m pml4 addr phys flags in
      let rest = map_range_from m1 pml4 virt flags n (addr + page_size) (phys + page_size) in
      if not mapped then (unmap_back m1 pml4 (pages virt addr) virt, false) else rest

  unfoldable pub paging_map_range : M → ℕ → ℕ → ℕ → ℕ → ℕ → M × Bool
  unfolding map_range_from
  paging_map_range m pml4 virt phys size flags =
      map_range_from m pml4 virt flags (pages virt ((virt + size) % word_mod)) virt phys

  -- list_del of the area that vma_insert put in: the list is what it was.
  unfoldable pub vmm_map_to_user : M → AddressSpace → ℕ → ℕ → ℕ → ℕ → M × AddressSpace × Bool
  unfolding paging_map_range
  vmm_map_to_user m space virt phys size flags =
      let end = (virt + size) % word_mod in
      elim (vma_find_intersect space.vmas virt end) [
        | some vma ↦ (m, space, false)
        | none ↦ elim (mem.vma_alloc m) [
          | none ↦ (m, space, false)
          | some m1 ↦
              let added = vma_insert space (new_area virt end flags) in
              let (m2, mapped) =
                paging_map_range m1 space.pml4 virt phys size (vma_to_pte_flags flags) in
              if not mapped
              then (
                mem.vma_free m2,
                record added {
                  vmas = space.vmas;
                  vma_count = (added.vma_count + word_mod - 1) % word_mod;
                },
                false,
              )
              else (
                m2,
                record added { total_vm = (added.total_vm + size / page_size) % word_mod },
                true,
              )
        ]
      ]
