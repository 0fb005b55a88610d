-- ===== src/Vmm/Map.antt =====
-- What vmm_map_region adds to an address space, and what a failure leaves behind.
use ocean_linux.Vmm.Region.{new_area, map_pages, vmm_map_region, vmm_unmap_region, pages, to_phys}
use ocean_linux.Vmm.Cut.{flags_at, in_range}
use ocean_linux.Vmm.Unmap.{vmm_unmap_region_lem}
use ocean_linux.Vmm.Sorted.{
  SortedFrom, vma_find_intersect-Apart, area_at-insert_sorted, insert_sorted-SortedFrom, area_at,
  Apart, within,
}
use ocean_linux.Vmm.{
  AddressSpace, word_mod, vma_find_intersect, insert_sorted, vma_insert, page_size,
  vma_to_pte_flags, VmArea,
}
use ocean_linux.Vmm.Memory.{Memory}
use ocean_linux.Base.{
  ℕ, ◌+◌, ◌<◌, ◌≡◌, none, if◌then◌else◌, some, arith, Bool, ◌⊎◌, ◌≤◌, true, ◌%◌, false, ◌-◌,
  Option-cases, ◌*◌, inr, suc, inl, some_injective, sym, ◌∙◌, Bool-cases, zero, subst, refl, List,
  ◌∷◌, [], ap, ltb, ◌&&◌,
}

-- No area that is apart from a range holds an address of it.
area_at-Apart :
    (vmas : List VmArea) (start end addr : ℕ)
    → Apart start end vmas
    → start ≤ addr
    → addr < end
    → area_at vmas addr ≡ none
unfolding area_at
area_at-Apart [] start end addr apart h k = refl
area_at-Apart (vma ∷ vmas) start end addr (apart, rest) h k =
    let outside : within vma addr ≡ false = ground arith in
    rw outside (area_at-Apart vmas start end addr rest h k)

-- An area holds an address of the region.
abbrev pub Taken : ℕ → ℕ → List VmArea → Type 0
Taken start end vmas =
    (addr : ℕ) × (vma : VmArea) × (start ≤ addr) × (addr < end) × (area_at vmas addr ≡ some vma)

-- An area that vma_find_intersect finds holds an address of the region.
vma_find_intersect-Taken :
    (lo start end : ℕ) (vmas : List VmArea) (vma : VmArea)
    → SortedFrom lo vmas
    → start < end
    → vma_find_intersect vmas start end ≡ some vma
    → Taken start end vmas
unfolding vma_find_intersect area_at
vma_find_intersect-Taken lo start end [] vma s h e = cc
vma_find_intersect-Taken lo start end (first ∷ vmas) vma (a, b, c) h e =
    elim (Bool-cases (ltb first.start end && ltb start first.end)) [
      | inl meets ↦
          let addr : ℕ = (if ltb start first.start then first.start else start) in
          let here : within first addr ≡ true = ground (arith, b, meets) in
          (addr, first, ground arith, ground (arith, meets, h), rw here refl)
      | inr apart ↦
          let (addr, found, low, high, holds) =
            vma_find_intersect-Taken first.end start end vmas vma c h (ground (arith, apart, e)) in
          let elsewhere : within first addr ≡ false = ground (arith, apart, low, high) in
          (addr, found, low, high, rw elsewhere holds)
    ]

-- What vmm_map_region does, by its result. On success the region was free, has the flags asked for,
-- and every other address is as before. On failure the space is as before, since an area holds an
-- address of the region or there is no memory for an area; or the loop over the pages stopped, and
-- an area of the part of the region from there on is left behind.
abbrev pub Maps :
    {M : Type 0} → Memory M → M → AddressSpace → ℕ → ℕ → ℕ → AddressSpace → Bool → Type 0
Maps mem m space start end flags after true =
    ((addr : ℕ) → start ≤ addr → addr < end → area_at space.vmas addr ≡ none)
    × SortedFrom 0 after.vmas
    × ((addr : ℕ)
        → flags_at after.vmas addr
          ≡ (if in_range start end addr then some flags else flags_at space.vmas addr))
Maps {M} mem m space start end flags after false =
    ((after ≡ space) × (Taken start end space.vmas ⊎ (mem.vma_alloc m ≡ none)))
    ⊎ ((stop : ℕ) × (start ≤ stop)
        × (stop < end)
        × ((m1 : M) × (mem.vma_alloc m ≡ some m1)
            × ((map_pages mem m1 space.pml4 (vma_to_pte_flags flags) (pages start end) start).1
                ≡ some stop))
        × SortedFrom 0 after.vmas
        × ((addr : ℕ)
            → flags_at after.vmas addr
              ≡ (if in_range stop end addr then some flags else flags_at space.vmas addr)))

module _ {M : Type 0} (mem : Memory M) where
  map_pages-stop :
      (n : ℕ) (m : M) (pml4 pte_flags addr stop : ℕ)
      → (map_pages mem m pml4 pte_flags n addr).1 ≡ some stop
      → (addr ≤ stop) × (stop + page_size ≤ addr + n * page_size)
  unfolding map_pages
  map_pages-stop zero m pml4 pte_flags addr stop e = cc
  map_pages-stop (suc n) m pml4 pte_flags addr stop e = elim (Option-cases (mem.get_free_page m)) [
    | inl empty ↦
        let same : addr ≡ stop = some_injective (sym (rw (empty, map_pages) refl) ∙ e) in
        omega arith
    | inr ((page, m1), got) ↦
        elim (Bool-cases (mem.map_page m1 pml4 addr (to_phys mem page) pte_flags).1) [
          | inr failed ↦
              let same : addr ≡ stop =
                some_injective (sym (rw (got, failed, map_pages) refl) ∙ e) in
              omega arith
          | inl mapped ↦
              let ih =
                map_pages-stop n
                  (mem.zero_page (mem.map_page m1 pml4 addr (to_phys mem page) pte_flags).0 page)
                  pml4 pte_flags (addr + page_size) stop
                  (sym (rw (got, mapped, map_pages) refl) ∙ e) in
              omega (arith, ih)
        ]
  ]

  module _ (m : M) (space : AddressSpace) (start end flags : ℕ) (fits : end < word_mod)
      (nonempty : start < end) (sorted : SortedFrom 0 space.vmas)
      (free : vma_find_intersect space.vmas start end ≡ none) where
    abbrev area : VmArea
    area = new_area mem start end flags

    apart : Apart start end space.vmas
    apart = vma_find_intersect-Apart 0 start end space.vmas sorted free

    added_flags :
        (addr : ℕ)
        → flags_at (insert_sorted area space.vmas) addr
          ≡ (if in_range start end addr then some flags else flags_at space.vmas addr)
    added_flags addr =
        ground (arith, area_at-insert_sorted 0 addr area space.vmas sorted nonempty apart)

    added_sorted : SortedFrom 0 (insert_sorted area space.vmas)
    added_sorted = insert_sorted-SortedFrom 0 area space.vmas sorted (omega arith) nonempty apart

    -- The rollback unmaps the pages in front of the one that failed.
    rolled_back :
        (m1 m2 : M) (stop : ℕ)
        → start ≤ stop
        → stop < end
        → mem.vma_alloc m ≡ some m1
        → (map_pages mem m1 space.pml4 (vma_to_pte_flags flags) (pages start end) start).1
          ≡ some stop
        → Maps mem m space start end flags
            (vmm_unmap_region mem m2 (vma_insert space area) start (stop - start)).1
            false
    unfolding vma_insert
    rolled_back m1 m2 stop lo hi got stopped =
        let out =
          vmm_unmap_region_lem mem m2 (vma_insert space area) start (stop - start) (omega arith)
            added_sorted in
        let whole : start + (stop - start) ≡ stop = omega arith in
        inr (
          stop,
          lo,
          hi,
          (m1, got, stopped),
          out.0,
          elim out.1 [
            | inl holds ↦ λ addr.
                holds addr
                ∙ rw whole (
                    ground (arith, added_flags addr, area_at-Apart space.vmas start end addr apart))
            | inr n ↦
                let here : area_at (insert_sorted area space.vmas) start ≡ some area =
                  area_at-insert_sorted 0 start area space.vmas sorted nonempty apart
                  ∙ ground (arith, nonempty) in
                let same : area ≡ n.vma = some_injective (sym here ∙ n.found) in
                absurd (omega (arith, n.begins, ap (λ (v : VmArea). v.start) same))
          ],
        )

  -- vmm_map_region with the end of the region worked out.
  map_to_end :
      (m : M) (space : AddressSpace) (start size flags : ℕ)
      → start < (start + size) % word_mod
      → SortedFrom 0 space.vmas
      → let (after_m, after, ok) = vmm_map_region mem m space start size flags in
        Maps mem m space start ((start + size) % word_mod) flags after ok
  unfolding vmm_map_region
  map_to_end m space start size flags nonempty sorted =
      let end = (start + size) % word_mod in
      let fits : (start + size) % word_mod < word_mod = omega arith in
      elim (Option-cases (vma_find_intersect space.vmas start end)) [
        | inr (vma, taken) ↦
            rw (taken, vmm_map_region)
              (inl (
                refl,
                inl (vma_find_intersect-Taken 0 start end space.vmas vma sorted nonempty taken),
              ))
        | inl free ↦ elim (Option-cases (mem.vma_alloc m)) [
          | inl empty ↦ rw (free, empty, vmm_map_region) (inl (refl, inr empty))
          | inr (m1, got) ↦
              elim (Option-cases
                (map_pages mem m1 space.pml4 (vma_to_pte_flags flags) (pages start end) start).1) [
                  | inr (stop, stopped) ↦
                      let b =
                        map_pages-stop (pages start end) m1 space.pml4 (vma_to_pte_flags flags)
                          start stop stopped in
                      rw (free, got, stopped, vmm_map_region)
                        (rolled_back m space start end flags fits nonempty sorted free m1 _ stop b.0
                          (omega (arith, b.1)) got stopped)
                  | inl finished ↦
                      rw (free, got, finished, vmm_map_region)
                        (
                          λ addr.
                              area_at-Apart space.vmas start end addr
                                (apart m space start end flags fits nonempty sorted free),
                          unfold vma_insert in
                              added_sorted m space start end flags fits nonempty sorted free,
                          unfold vma_insert in
                              added_flags m space start end flags fits nonempty sorted free,
                        )
                ]
        ]
      ]

  -- vmm_map_region of a region that is not empty and does not wrap around, on sorted areas, on every
  -- path. It succeeds for a free region, which has the flags then, with every other address as
  -- before. It fails with the space as it was where an area holds an address of the region or there
  -- is no memory for an area. Where its loop over the pages stops, it fails with an area of the rest
  -- of the region left behind.
  pub vmm_map_region_lem :
      (m : M) (space : AddressSpace) (start size flags : ℕ)
      → start + size < word_mod
      → 0 < size
      → SortedFrom 0 space.vmas
      → let (after_m, after, ok) = vmm_map_region mem m space start size flags in
        Maps mem m space start (start + size) flags after ok
  vmm_map_region_lem m space start size flags fits nonempty sorted =
      let end : (start + size) % word_mod ≡ start + size = omega arith in
      let out = vmm_map_region mem m space start size flags in
      subst (λ e. Maps mem m space start e flags out.1 out.2) end
        (map_to_end m space start size flags (omega arith) sorted)
