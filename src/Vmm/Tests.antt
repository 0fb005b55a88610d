-- ===== src/Vmm/Tests.antt =====
-- The theorems about address spaces at concrete inputs. The memory of these runs is a number that
-- counts the pages given out, of which there are eight; no page is ever mapped already.
use ocean_linux.Vmm.Protect.{Protects, vmm_mprotect_lem}
use ocean_linux.Vmm.Space.{vmm_mprotect}
use ocean_linux.Vmm.Access.{AllGranted, validate_user_range_iff}
use ocean_linux.Vmm.Map.{Maps, vmm_map_region_lem}
use ocean_linux.Vmm.Sorted.{SortedFrom, area_at, vmm_find_vma-eq-area_at}
use ocean_linux.Vmm.Memory.{Memory}
use ocean_linux.Vmm.Cut.{flags_at, in_range}
use ocean_linux.Vmm.Unmap.{vmm_unmap_region_lem, NotSplit}
use ocean_linux.Vmm.{vmm_find_vma, AddressSpace, vma_find_intersect, user_space_end, word_mod}
use ocean_linux.Vmm.User.{validate_user_range}
use ocean_linux.Vmm.Region.{vmm_unmap_region, vmm_map_region, map_pages, unmap_pages, pages}
use ocean_linux.Base.{
  ℕ, arith, refl, ◌≡◌, some, ◌∷◌, if◌then◌else◌, true, [], ◌↔◌, ltb, ◌+◌, false, ◌*◌, ◌≤◌, none,
  ◌%◌, ◌⊎◌,
}

abbrev eight_pages : Memory ℕ
eight_pages = record {
  vma_alloc = λ m. some m;
  vma_free = λ m. m;
  space_alloc = λ m. some m;
  space_free = λ m. m;
  get_free_page = λ m. if ltb m 8 then some (4096 * m, m + 1) else none;
  free_page = λ m page. m;
  zero_page = λ m page. m;
  copy_page = λ m to from. m;
  hhdm_offset = 0;
  get_pte = λ m pml4 addr. none;
  set_pte = λ m pml4 addr pte. m;
  map_page = λ m pml4 virt phys flags. (m, true);
  unmap_page = λ m pml4 virt. m;
  create_pml4 = λ m. some (0, m);
  destroy_pml4 = λ m pml4. m;
}

abbrev one_area : AddressSpace
one_area = record {
  pml4 = 0;
  vmas = record { start = 4096; end = 12288; flags = 3; page_prot = 0 } ∷ [];
  vma_count = 1;
  brk = 0;
  start_brk = 0;
  start_stack = 0;
  total_vm = 2;
  ref_count = 1;
}

one_area-SortedFrom : SortedFrom 0 one_area.vmas
one_area-SortedFrom = (omega arith, (omega arith), tt)

-- The middle of the area goes, and it is split.
vmm_unmap_region_lem_example :
    let after = (vmm_unmap_region eight_pages 0 one_area 6000 2000).1 in
    SortedFrom 0 after.vmas
    × (((addr : ℕ)
          → flags_at after.vmas addr
            ≡ (if in_range 6000 (6000 + 2000) addr then none else flags_at one_area.vmas addr))
        ⊎ NotSplit eight_pages
            (unmap_pages eight_pages 0 one_area.pml4 (pages 6000 (6000 + 2000)) 6000 0).0
            one_area.vmas
            after.vmas
            6000
            (6000 + 2000))
vmm_unmap_region_lem_example =
    vmm_unmap_region_lem eight_pages 0 one_area 6000 2000 (omega arith) one_area-SortedFrom

vmm_map_region_lem_example :
    let (after_m, after, ok) = vmm_map_region eight_pages 7 one_area 20480 8192 1 in
    Maps eight_pages 7 one_area 20480 (20480 + 8192) 1 after ok
vmm_map_region_lem_example =
    vmm_map_region_lem eight_pages 7 one_area 20480 8192 1 (omega arith) (omega arith)
      one_area-SortedFrom

-- Only one page is left, so the second of the two cannot be had, and an area stays behind.
map_fails : (vmm_map_region eight_pages 7 one_area 20480 8192 1).2 ≡ false
unfolding vmm_map_region vma_find_intersect map_pages
map_fails = refl

validate_user_range_iff_example :
    (validate_user_range (some one_area) 5000 100 1 ≡ true)
    ↔ ((5000 + 100 ≤ user_space_end + 1) × AllGranted one_area.vmas 1 5000 (5000 + 100))
validate_user_range_iff_example =
    validate_user_range_iff one_area 5000 100 1 one_area-SortedFrom (λ e. absurd (omega (arith, e)))
      (λ e. absurd (omega (arith, e)))

vmm_find_vma-eq-area_at_example : vmm_find_vma one_area.vmas 5000 ≡ area_at one_area.vmas 5000
vmm_find_vma-eq-area_at_example = vmm_find_vma-eq-area_at 0 5000 one_area.vmas one_area-SortedFrom

vmm_mprotect_lem_example :
    let (after_m, after, ok) = vmm_mprotect eight_pages 0 one_area 4096 4096 1 in
    Protects one_area 4096 ((4096 + 4096) % word_mod) 1 after ok
vmm_mprotect_lem_example = vmm_mprotect_lem eight_pages 0 one_area 4096 4096 1 one_area-SortedFrom
