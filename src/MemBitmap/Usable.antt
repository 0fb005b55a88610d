-- ===== src/MemBitmap/Usable.antt =====
-- What mem_bitmap_mark_usable, mem_bitmap_mark_reserved and the two frees do to each page, in the
-- terms of mem_bitmap_is_usable.
use ocean_linux.MemBitmap.Align.{phys_to_pfn-page_align, phys_to_pfn-page_align_down}
use ocean_linux.MemBitmap.Range.{inside, bitmap_set_range-Marked, bitmap_clear_range-Marked}
use ocean_linux.MemBitmap.Invariant.{IsValid, mem_bitmap_is_usable-free_at}
use ocean_linux.Base.{
  ℕ, Bool, true, false, leb, ltb, ◌*◌, ◌&&◌, ◌+◌, ◌<◌, ◌≡◌, if◌then◌else◌, arith, Bool-cases, inl,
  ◌-◌, inr,
}
use ocean_linux.MemBitmap.{
  MemBitmap, mem_bitmap_mark_usable, word_mod, mem_bitmap_is_usable, mem_bitmap_mark_reserved,
  phys_to_pfn, page_align_down, page_align,
}

-- A page that lies wholly in the bytes from `start` up to `end`, and one that touches them.
abbrev pub page_within : ℕ → ℕ → ℕ → Bool
page_within start end q = leb start (q * 4096) && leb (q * 4096 + 4096) end

abbrev pub page_touches : ℕ → ℕ → ℕ → Bool
page_touches start end q = ltb start (q * 4096 + 4096) && ltb (q * 4096) end

-- mem_bitmap_mark_usable frees exactly the covered pages that lie wholly in the byte range, keeps
-- the bitmap valid, and leaves every other page as it was.
pub mem_bitmap_mark_usable_pages :
    {m : MemBitmap}
    → IsValid m
    → (start end q : ℕ) → start + 4096 < word_mod
    → end < word_mod
    → IsValid (mem_bitmap_mark_usable m start end)
      × (mem_bitmap_is_usable (mem_bitmap_mark_usable m start end) q
          ≡ (if page_within start end q && inside m q then true else mem_bitmap_is_usable m q))
unfolding mem_bitmap_mark_usable
mem_bitmap_mark_usable_pages {m} v start end q h k =
    let lo = phys_to_pfn-page_align start (omega arith) in
    let hi = phys_to_pfn-page_align_down end k in
    elim (Bool-cases (leb (phys_to_pfn (page_align_down end)) (phys_to_pfn (page_align start)))) [
      | inl empty ↦ rw (empty, mem_bitmap_mark_usable) (v, ground arith)
      | inr some_pages ↦
          let marked =
            bitmap_clear_range-Marked v (phys_to_pfn (page_align start))
              (phys_to_pfn (page_align_down end) - phys_to_pfn (page_align start)) (ground arith) in
          rw (some_pages, mem_bitmap_mark_usable)
            (
              marked.valid,
              ground (
                arith,
                mem_bitmap_is_usable-free_at v q,
                mem_bitmap_is_usable-free_at marked.valid q,
                marked.pages q,
              ),
            )
    ]

-- mem_bitmap_mark_reserved takes exactly the covered pages that the byte range touches, keeps the
-- bitmap valid, and leaves every other page as it was.
pub mem_bitmap_mark_reserved_pages :
    {m : MemBitmap}
    → IsValid m
    → (start end q : ℕ) → start < end
    → end + 4096 < word_mod
    → IsValid (mem_bitmap_mark_reserved m start end)
      × (mem_bitmap_is_usable (mem_bitmap_mark_reserved m start end) q
          ≡ (if page_touches start end q && inside m q then false else mem_bitmap_is_usable m q))
unfolding mem_bitmap_mark_reserved
mem_bitmap_mark_reserved_pages {m} v start end q h k =
    let lo = phys_to_pfn-page_align_down start (omega arith) in
    let hi = phys_to_pfn-page_align end (omega arith) in
    let marked =
      bitmap_set_range-Marked v (phys_to_pfn (page_align_down start))
        (phys_to_pfn (page_align end) - phys_to_pfn (page_align_down start)) (omega arith) in
    elim (Bool-cases (leb (phys_to_pfn (page_align end)) (phys_to_pfn (page_align_down start)))) [
      | inl empty ↦ absurd (ground arith)
      | inr some_pages ↦
          rw (some_pages, mem_bitmap_mark_reserved)
            (
              marked.valid,
              ground (
                arith,
                mem_bitmap_is_usable-free_at v q,
                mem_bitmap_is_usable-free_at marked.valid q,
                marked.pages q,
              ),
            )
    ]
