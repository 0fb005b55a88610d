-- ===== src/Vmm/Space.antt =====
-- kernel/mm/vmm.c: address spaces as a whole: creating, destroying and cloning them, and the calls
-- behind mmap, munmap and mprotect. The search of vmm_mmap goes up in steps of 2 ^ 20, so that
-- 2 ^ 27 rounds pass the end of user space from any address in it.
use ocean_linux.MemBitmap.{page_align}
use ocean_linux.Base.Bits.{bit_not}
use ocean_linux.Vmm.Region.{vmm_map_region, vmm_unmap_region, pages, free_mapped}
use ocean_linux.Vmm.{
  VmArea, AddressSpace, has_flag, vma_read, vma_find_intersect, pte_present, vma_write,
  vma_to_pte_flags, word_mod, vma_insert, page_size, pte_addr_mask, vma_exec, vmm_find_vma,
  user_space_end, vma_anonymous,
}
use ocean_linux.Vmm.Memory.{Memory}
use ocean_linux.Base.{
  ℕ, ◌^◌, bit_and, List, if◌then◌else◌, bit_or, suc, ◌+◌, Option, Bool, ◌∷◌, leb, ◌==◌, true, ◌-◌,
  none, ◌%◌, some, not, ◌&&◌, ltb, [], false, ◌||◌, zero,
}

abbrev pub search_step : ℕ
search_step = 2 ^ 20

abbrev pub search_rounds : ℕ
search_rounds = 2 ^ 27

abbrev pub mmap_base : ℕ
mmap_base = 2 ^ 28

unfoldable pub search_free : List VmArea → ℕ → ℕ → ℕ → ℕ
search_free vmas size zero addr = addr
search_free vmas size (suc n) addr =
    let rest = search_free vmas size n ((addr + search_step) % word_mod) in
    if not (ltb ((addr + size) % word_mod) user_space_end)
    then addr
    else elim (vma_find_intersect vmas addr ((addr + size) % word_mod)) [
      | none ↦ addr
      | some vma ↦ rest
    ]

-- Whether an area meets a range.
abbrev pub meets : List VmArea → ℕ → ℕ → Bool
meets vmas start end = elim (vma_find_intersect vmas start end) [ none ↦ false | some vma ↦ true ]

-- The address at which vmm_mmap maps, if there is one.
unfoldable pub choose_address : List VmArea → ℕ → ℕ → Option ℕ
unfolding search_free
choose_address vmas hint size =
    let addr = search_free vmas size search_rounds mmap_base in
    let found = (if leb user_space_end ((addr + size) % word_mod) then none else some addr) in
    if (hint == 0) || meets vmas hint ((hint + size) % word_mod) then found else some hint

-- The four flags that vmm_mmap carries over.
unfoldable pub mmap_flags : ℕ → ℕ → ℕ
mmap_flags prot flags =
    let read = (if has_flag prot vma_read then vma_read else 0) in
    let write = (if has_flag prot vma_write then bit_or read vma_write else read) in
    let exec = (if has_flag prot vma_exec then bit_or write vma_exec else write) in
    if has_flag flags vma_anonymous then bit_or exec vma_anonymous else exec

-- vma->flags after mprotect.
unfoldable pub protected : VmArea → ℕ → VmArea
protected vma prot =
    let flags = bit_or (bit_and vma.flags (bit_not 32 7)) prot in
    record vma { flags = flags; page_prot = vma_to_pte_flags flags }

-- The change of the area that vmm_find_vma finds.
unfoldable pub protect_area : List VmArea → ℕ → ℕ → List VmArea
unfolding protected
protect_area [] addr prot = []
protect_area (vma ∷ vmas) addr prot =
    let rest = vma ∷ protect_area vmas addr prot in
    if leb vma.start addr && ltb addr vma.end
    then protected vma prot ∷ vmas
    else if ltb addr vma.start
    then vma ∷ vmas
    else rest

module _ {M : Type 0} (mem : Memory M) where
  unfoldable pub vmm_create_address_space : M → M × Option AddressSpace
  vmm_create_address_space m = elim (mem.space_alloc m) [
    | none ↦ (m, none)
    | some m1 ↦ elim (mem.create_pml4 m1) [
      | none ↦ (mem.space_free m1, none)
      | some (pml4, m2) ↦ (
        m2,
        some (record {
          pml4 = pml4;
          vmas = [];
          vma_count = 0;
          brk = 0;
          start_brk = 0;
          start_stack = 0;
          total_vm = 0;
          ref_count = 1;
        }),
      )
    ]
  ]

  unfoldable pub free_pages_of : M → ℕ → ℕ → ℕ → M
  unfolding free_mapped
  free_pages_of m pml4 zero addr = m
  free_pages_of m pml4 (suc n) addr =
      free_pages_of (free_mapped mem m pml4 addr).0 pml4 n (addr + page_size)

  unfoldable pub free_areas : M → ℕ → List VmArea → M
  unfolding free_pages_of
  free_areas m pml4 [] = m
  free_areas m pml4 (vma ∷ vmas) =
      free_areas (mem.vma_free (free_pages_of m pml4 (pages vma.start vma.end) vma.start)) pml4 vmas

  -- The space is gone, and only the memory is left, when the last reference is dropped.
  unfoldable pub vmm_destroy_address_space : M → AddressSpace → M × Option AddressSpace
  unfolding free_areas
  vmm_destroy_address_space m space =
      let ref_count = (space.ref_count + 2 ^ 32 - 1) % 2 ^ 32 in
      if ltb 0 ref_count
      then (m, some (record space { ref_count = ref_count }))
      else (mem.space_free (mem.destroy_pml4 (free_areas m space.pml4 space.vmas) space.pml4), none)

  -- The address, or nothing for -1.
  unfoldable pub vmm_mmap : M → AddressSpace → ℕ → ℕ → ℕ → ℕ → M × AddressSpace × Option ℕ
  unfolding choose_address mmap_flags vmm_map_region
  vmm_mmap m space hint size prot flags =
      let aligned = page_align size in
      elim (choose_address space.vmas hint aligned) [
        | none ↦ (m, space, none)
        | some addr ↦
            let (m1, mapped, ok) =
              vmm_map_region mem m space addr aligned (mmap_flags prot flags) in
            if not ok then (m1, mapped, none) else (m1, mapped, some addr)
      ]

  unfoldable pub vmm_munmap : M → AddressSpace → ℕ → ℕ → M × AddressSpace
  unfolding vmm_unmap_region
  vmm_munmap m space addr size = vmm_unmap_region mem m space addr size

  -- The loop over the page table entries.
  unfoldable pub protect_pages : M → ℕ → ℕ → ℕ → ℕ → M
  protect_pages m pml4 flags zero addr = m
  protect_pages m pml4 flags (suc n) addr =
      let m1 : M = elim (mem.get_pte m pml4 addr) [
        | none ↦ m
        | some pte ↦
            if has_flag pte pte_present
            then mem.set_pte m pml4 addr (bit_or (bit_and pte pte_addr_mask) flags)
            else m
      ] in
      protect_pages m1 pml4 flags n (addr + page_size)

  unfoldable pub vmm_mprotect : M → AddressSpace → ℕ → ℕ → ℕ → M × AddressSpace × Bool
  unfolding protect_pages protect_area protected
  vmm_mprotect m space addr size prot =
      let end = (addr + size) % word_mod in
      elim (vmm_find_vma space.vmas addr) [
        | none ↦ (m, space, false)
        | some vma ↦ if ltb addr vma.start || ltb vma.end end then (m, space, false) else (
          protect_pages m space.pml4 (protected vma prot).page_prot (pages addr end) addr,
          record space { vmas = protect_area space.vmas addr prot },
          true,
        )
      ]

  -- The loop over the pages of one area of vmm_clone_address_space.
  unfoldable pub clone_pages : M → ℕ → ℕ → ℕ → ℕ → M × Bool
  clone_pages m src dst zero addr = (m, true)
  clone_pages m src dst (suc n) addr =
      let skip = clone_pages m src dst n (addr + page_size) in
      elim (mem.get_pte m src addr) [
        | none ↦ skip
        | some pte ↦ if not (has_flag pte pte_present) then skip else elim (mem.get_free_page m) [
          | none ↦ (m, false)
          | some (page, m1) ↦
              let from = (bit_and pte pte_addr_mask + mem.hhdm_offset) % word_mod in
              let phys = (page + word_mod - mem.hhdm_offset) % word_mod in
              let flags = bit_and pte (bit_not 64 pte_addr_mask) in
              let (m2, mapped) = mem.map_page (mem.copy_page m1 page from) dst addr phys flags in
              let rest = clone_pages m2 src dst n (addr + page_size) in
              if not mapped then (mem.free_page m2 page, false) else rest
        ]
      ]

  unfoldable pub clone_areas : M → ℕ → List VmArea → AddressSpace → M × Option AddressSpace
  unfolding clone_pages vmm_destroy_address_space
  clone_areas m src [] dst = (m, some dst)
  clone_areas m src (vma ∷ vmas) dst = elim (mem.vma_alloc m) [
    | none ↦ ((vmm_destroy_address_space m dst).0, none)
    | some m1 ↦
        let (m2, copied) = clone_pages m1 src dst.pml4 (pages vma.start vma.end) vma.start in
        let rest = clone_areas m2 src vmas (vma_insert dst vma) in
        if not copied then ((vmm_destroy_address_space (mem.vma_free m2) dst).0, none) else rest
  ]

  unfoldable pub vmm_clone_address_space : M → AddressSpace → M × Option AddressSpace
  unfolding clone_areas vmm_create_address_space
  vmm_clone_address_space m src =
      let (m1, created) = vmm_create_address_space m in
      elim created [
        | none ↦ (m1, none)
        | some dst ↦
            let (m2, cloned) = clone_areas m1 src.pml4 src.vmas dst in
            elim cloned [
              | none ↦ (m2, none)
              | some full ↦ (
                m2,
                some (record full {
                  brk = src.brk;
                  start_brk = src.start_brk;
                  start_stack = src.start_stack;
                  total_vm = src.total_vm;
                }),
              )
            ]
      ]
