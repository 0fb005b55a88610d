-- ===== src/Vmm/Memory.antt =====
-- What kernel/mm/vmm.c uses of kernel/arch/x86_64/mm/paging.c, of the page allocator and of the
-- slab allocator, over a state `M` of theirs. A page table is named by the address of its PML4.
use ocean_linux.Base.{ℕ, Option, Bool}

pub record Memory (M : Type 0) : Type 0 where
  -- vma_alloc, which may have no memory, and vma_free.
  pub vma_alloc : M → Option M
  pub vma_free : M → M
  -- The same for the structure of an address space.
  pub space_alloc : M → Option M
  pub space_free : M → M
  -- A page's address in the direct mapping.
  pub get_free_page : M → Option (ℕ × M)
  pub free_page : M → ℕ → M
  pub zero_page : M → ℕ → M
  pub copy_page : M → ℕ → ℕ → M
  pub hhdm_offset : ℕ
  -- The entry that paging_get_pte points at, if it exists, and a store through that pointer.
  pub get_pte : M → ℕ → ℕ → Option ℕ
  pub set_pte : M → ℕ → ℕ → ℕ → M
  -- paging_map of a virtual to a physical address with flags, and whether it succeeded; on a
  -- failure tables may have been added.
  pub map_page : M → ℕ → ℕ → ℕ → ℕ → M × Bool
  pub unmap_page : M → ℕ → ℕ → M
  pub create_pml4 : M → Option (ℕ × M)
  pub destroy_pml4 : M → ℕ → M
