-- ===== src/Vmm.antt =====
-- kernel/mm/vmm.c, with struct vm_area and struct address_space of kernel/include/ocean/vmm.h: the
-- areas of an address space. An address is a number below 2 ^ 64. The list of areas is a list,
-- its order that of the linked list. The fields for files, which nothing sets, the physical copy
-- of the page table's address and the lock are left out. The page tables, the page allocator and
-- the allocator of areas are the `Memory` of Vmm.Memory; the functions that change an address
-- space are in Vmm.Region and Vmm.Space, those that check user pointers in Vmm.User.
pub mod Memory
pub mod Region
pub mod Protect
mod Tests
pub mod Space
pub mod Map
pub mod User
pub mod Access
pub mod Cut
pub mod Unmap
pub mod Sorted
use ocean_linux.Base.{
  ℕ, if◌then◌else◌, List, ◌+◌, Bool, ◌^◌, Option, ◌-◌, bit_or, not, ◌∷◌, ◌%◌, none, bit_and, ltb,
  leb, ◌==◌, [], ◌&&◌, some,
}

pub record VmArea : Type 0 where
  pub start : ℕ
  pub end : ℕ
  pub flags : ℕ
  pub page_prot : ℕ

pub record AddressSpace : Type 0 where
  pub pml4 : ℕ
  pub vmas : List VmArea
  pub vma_count : ℕ
  pub brk : ℕ
  pub start_brk : ℕ
  pub start_stack : ℕ
  pub total_vm : ℕ
  pub ref_count : ℕ

abbrev pub word_mod : ℕ
word_mod = 2 ^ 64

abbrev pub page_size : ℕ
page_size = 4096

abbrev pub vma_read : ℕ
vma_read = 1

abbrev pub vma_write : ℕ
vma_write = 2

abbrev pub vma_exec : ℕ
vma_exec = 4

abbrev pub vma_anonymous : ℕ
vma_anonymous = 64

abbrev pub pte_present : ℕ
pte_present = 1

abbrev pub pte_writable : ℕ
pte_writable = 2

abbrev pub pte_user : ℕ
pte_user = 4

abbrev pub pte_nx : ℕ
pte_nx = 2 ^ 63

abbrev pub pte_addr_mask : ℕ
pte_addr_mask = 2 ^ 52 - 2 ^ 12

abbrev pub user_space_end : ℕ
user_space_end = 2 ^ 47 - 1

-- A flag of an area or of a page table entry.
abbrev pub has_flag : ℕ → ℕ → Bool
has_flag flags flag = not (bit_and flags flag == 0)

unfoldable pub vma_to_pte_flags : ℕ → ℕ
vma_to_pte_flags vma_flags =
    let writable =
      (if has_flag vma_flags vma_write then bit_or pte_present pte_writable else pte_present) in
    let executable = (if has_flag vma_flags vma_exec then writable else bit_or writable pte_nx) in
    bit_or executable pte_user

unfoldable pub vmm_find_vma : List VmArea → ℕ → Option VmArea
vmm_find_vma [] addr = none
vmm_find_vma (vma ∷ vmas) addr =
    let rest = vmm_find_vma vmas addr in
    if leb vma.start addr && ltb addr vma.end
    then some vma
    else if ltb addr vma.start
    then none
    else rest

unfoldable pub vma_find_intersect : List VmArea → ℕ → ℕ → Option VmArea
vma_find_intersect [] start end = none
vma_find_intersect (vma ∷ vmas) start end =
    let rest = vma_find_intersect vmas start end in
    if ltb vma.start end && ltb start vma.end
    then some vma
    else if leb end vma.start
    then none
    else rest

-- list_add_tail before the first area that starts behind the new one, or at the end.
unfoldable pub insert_sorted : VmArea → List VmArea → List VmArea
insert_sorted new [] = new ∷ []
insert_sorted new (vma ∷ vmas) =
    if ltb new.start vma.start then new ∷ vma ∷ vmas else vma ∷ insert_sorted new vmas

unfoldable pub vma_insert : AddressSpace → VmArea → AddressSpace
unfolding insert_sorted
vma_insert space new = record space {
  vmas = insert_sorted new space.vmas;
  vma_count = (space.vma_count + 1) % word_mod;
}
