-- ===== src/Vmm/Sorted.antt =====
-- The areas of an address space are sorted and apart, so that each search, which stops early,
-- finds what a search of the whole list would.
use ocean_linux.Vmm.{vmm_find_vma, insert_sorted, VmArea, vma_find_intersect}
use ocean_linux.Base.{
  ℕ, List, ◌<◌, ◌∷◌, ◌≤◌, Bool, ◌≡◌, Option, dec_lt, leb, [], if◌then◌else◌, ◌⊎◌, none, inr, arith,
  refl, lt→ltb, some, ◌&&◌, inl, ltb, false,
}

-- The areas lie behind `lo`, each behind the one before it, and none is empty.
abbrev pub SortedFrom : ℕ → List VmArea → Type 0
SortedFrom lo [] = Unit {0}
SortedFrom lo (vma ∷ vmas) = (lo ≤ vma.start) × (vma.start < vma.end) × SortedFrom vma.end vmas

abbrev pub within : VmArea → ℕ → Bool
within vma addr = leb vma.start addr && ltb addr vma.end

-- The first area that holds an address, with no early exit.
unfoldable pub area_at : List VmArea → ℕ → Option VmArea
area_at [] addr = none
area_at (vma ∷ vmas) addr = if within vma addr then some vma else area_at vmas addr

pub SortedFrom-weaken :
    (lo lo' : ℕ) (vmas : List VmArea) → lo' ≤ lo → SortedFrom lo vmas → SortedFrom lo' vmas
SortedFrom-weaken lo lo' [] h s = tt
SortedFrom-weaken lo lo' (vma ∷ vmas) h (a, b, c) = (omega arith, b, c)

-- No area holds an address in front of all of them.
pub area_at-before :
    (lo addr : ℕ) (vmas : List VmArea) → SortedFrom lo vmas → addr < lo → area_at vmas addr ≡ none
unfolding area_at
area_at-before lo addr [] s h = refl
area_at-before lo addr (vma ∷ vmas) (a, b, c) h =
    let rest = area_at-before vma.end addr vmas c (omega arith) in ground arith

-- vmm_find_vma, which stops at the first area behind the address, finds the area that holds it.
pub vmm_find_vma-eq-area_at :
    (lo addr : ℕ) (vmas : List VmArea)
    → SortedFrom lo vmas
    → vmm_find_vma vmas addr ≡ area_at vmas addr
unfolding vmm_find_vma area_at
vmm_find_vma-eq-area_at lo addr [] s = refl
vmm_find_vma-eq-area_at lo addr (vma ∷ vmas) (a, b, c) =
    let rest = vmm_find_vma-eq-area_at vma.end addr vmas c in
    elim (dec_lt addr vma.start) [
      | yes before ↦ ground (arith, area_at-before vma.end addr vmas c)
      | no behind ↦ ground (arith, rest)
    ]

-- Where vma_find_intersect finds nothing, no area meets the range.
abbrev pub Apart : ℕ → ℕ → List VmArea → Type 0
Apart start end [] = Unit {0}
Apart start end (vma ∷ vmas) = ((vma.end ≤ start) ⊎ (end ≤ vma.start)) × Apart start end vmas

behind_Apart :
    (lo start end : ℕ) (vmas : List VmArea) → SortedFrom lo vmas → end ≤ lo → Apart start end vmas
behind_Apart lo start end [] s h = tt
behind_Apart lo start end (vma ∷ vmas) (a, b, c) h =
    (inr (omega arith), behind_Apart vma.end start end vmas c (omega arith))

pub vma_find_intersect-Apart :
    (lo start end : ℕ) (vmas : List VmArea)
    → SortedFrom lo vmas
    → vma_find_intersect vmas start end ≡ none
    → Apart start end vmas
unfolding vma_find_intersect
vma_find_intersect-Apart lo start end [] s e = tt
vma_find_intersect-Apart lo start end (vma ∷ vmas) (a, b, c) e = elim (dec_lt vma.start end) [
  | no behind ↦ (inr (omega arith), behind_Apart vma.end start end vmas c (omega arith))
  | yes before ↦
      let apart : vma.end ≤ start = ground arith in
      let rest : vma_find_intersect vmas start end ≡ none = ground arith in
      (inl apart, vma_find_intersect-Apart vma.end start end vmas c rest)
]

-- Putting an area into a gap keeps the list sorted, and adds exactly its addresses.
pub insert_sorted-SortedFrom :
    (lo : ℕ) (new : VmArea) (vmas : List VmArea)
    → SortedFrom lo vmas
    → lo ≤ new.start
    → new.start < new.end
    → Apart new.start new.end vmas
    → SortedFrom lo (insert_sorted new vmas)
unfolding insert_sorted
insert_sorted-SortedFrom lo new [] s h k apart = (h, k, tt)
insert_sorted-SortedFrom lo new (vma ∷ vmas) (a, b, c) h k (apart, rest) =
    elim (dec_lt new.start vma.start) [
      | yes before ↦ rw (lt→ltb new.start vma.start before) (h, k, (ground arith, b, c))
      | no behind ↦
          let later : ltb new.start vma.start ≡ false = ground arith in
          let gap : vma.end ≤ new.start = elim apart [ inl p ↦ p | inr q ↦ absurd (omega arith) ] in
          rw later (a, b, insert_sorted-SortedFrom vma.end new vmas c gap k rest)
    ]

pub area_at-insert_sorted :
    (lo addr : ℕ) (new : VmArea) (vmas : List VmArea)
    → SortedFrom lo vmas
    → new.start < new.end
    → Apart new.start new.end vmas
    → area_at (insert_sorted new vmas) addr
      ≡ (if within new addr then some new else area_at vmas addr)
unfolding insert_sorted area_at
area_at-insert_sorted lo addr new [] s k apart = refl
area_at-insert_sorted lo addr new (vma ∷ vmas) (a, b, c) k (apart, rest) =
    elim (dec_lt new.start vma.start) [
      | yes before ↦ rw (lt→ltb new.start vma.start before) refl
      | no behind ↦
          let later : ltb new.start vma.start ≡ false = ground arith in
          let ih = area_at-insert_sorted vma.end addr new vmas c k rest in
          let gap : vma.end ≤ new.start = elim apart [ inl p ↦ p | inr q ↦ absurd (omega arith) ] in
          rw later (ground (arith, ih))
    ]
