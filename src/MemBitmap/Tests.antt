-- ===== src/MemBitmap/Tests.antt =====
-- Runs of the page bitmap, and its theorems at a bitmap of 70 pages of which 2, 3 and 4 are free.
use ocean_linux.Base.Bits.{bit-bit_not, bit-zero, bit}
use ocean_linux.MemBitmap.Usable.{mem_bitmap_mark_reserved_pages, mem_bitmap_mark_usable_pages}
use ocean_linux.MemBitmap.Invariant.{IsValid, mem_bitmap_init-IsValid}
use ocean_linux.MemBitmap.FindRange.{AllocatesRun, mem_bitmap_alloc_pages_lem}
use ocean_linux.MemBitmap.Count.{clear_bits, PaddingSet, bitmap_count_free_lem}
use ocean_linux.Base.BitArray.{test_bit, test_bit-bit}
use ocean_linux.MemBitmap.Find.{Allocates, mem_bitmap_alloc_page_lem}
use ocean_linux.Base.{
  ℕ, true, false, refl, ◌^◌, ◌-◌, get_or, arith, ◌/◌, ◌∷◌, ◌≡◌, ◌<◌, [], suc, some, zero, ◌%◌, ap,
}
use ocean_linux.MemBitmap.{
  MemBitmap, mem_bitmap_alloc_pages, mem_bitmap_alloc_page, bitmap_count_free,
  bitmap_find_free_range, mem_bitmap_init, mem_bitmap_mark_usable, bitmap_find_free,
  mem_bitmap_mark_reserved, find_range_from, mem_bitmap_is_usable, find_free_from, find_in_word,
  bitmap_test_bit,
}

abbrev three_free : MemBitmap
three_free = record {
  bits = (2 ^ 64 - 1 - 28) ∷ (2 ^ 64 - 1) ∷ [];
  nr_bits = 70;
  nr_words = 2;
  base_pfn = 0;
}

three_free-IsValid : IsValid three_free
three_free-IsValid = record {
  stored = refl;
  enough = omega arith;
  no_wrap = omega arith;
  words = words;
}
  where
    words : (k : ℕ) → get_or three_free.bits k 0 < 2 ^ 64
    words zero = omega arith
    words (suc zero) = omega arith
    words (suc (suc k)) = omega arith

alloc_lowest : (mem_bitmap_alloc_page three_free).1 ≡ some 2
unfolding mem_bitmap_alloc_page bitmap_find_free find_free_from find_in_word
alloc_lowest = refl

alloc_three : (mem_bitmap_alloc_pages three_free 3).1 ≡ some 2
unfolding mem_bitmap_alloc_pages bitmap_find_free_range find_range_from bitmap_test_bit
alloc_three = refl

mem_bitmap_init-IsValid_example : IsValid (mem_bitmap_init 70)
mem_bitmap_init-IsValid_example = mem_bitmap_init-IsValid 70 (omega arith)

mark_usable_example :
    IsValid (mem_bitmap_mark_usable three_free 20000 30000)
    × (mem_bitmap_is_usable (mem_bitmap_mark_usable three_free 20000 30000) 6 ≡ true)
mark_usable_example =
    mem_bitmap_mark_usable_pages three_free-IsValid 20000 30000 6 (omega arith) (omega arith)

mark_reserved_example :
    IsValid (mem_bitmap_mark_reserved three_free 9000 9001)
    × (mem_bitmap_is_usable (mem_bitmap_mark_reserved three_free 9000 9001) 2 ≡ false)
mark_reserved_example =
    mem_bitmap_mark_reserved_pages three_free-IsValid 9000 9001 2 (omega arith) (omega arith)

alloc_page_example :
    Allocates three_free (mem_bitmap_alloc_page three_free).0 (mem_bitmap_alloc_page three_free).1
alloc_page_example = mem_bitmap_alloc_page_lem three_free-IsValid

alloc_pages_example :
    AllocatesRun three_free 3
      (mem_bitmap_alloc_pages three_free 3).0
      (mem_bitmap_alloc_pages three_free 3).1
alloc_pages_example = mem_bitmap_alloc_pages_lem 3 three_free-IsValid (omega arith)

three_free-PaddingSet : PaddingSet three_free
unfolding test_bit
three_free-PaddingSet j h k =
    let word : j / 64 ≡ 1 = omega arith in
    let bits = test_bit-bit three_free.bits j in
    let place = bit-bit_not 64 0 (j % 64) (omega arith) (omega arith) in
    ground (
      arith,
      bits,
      place,
      bit-zero (j % 64),
      ap (λ w. bit (get_or three_free.bits w 0) (j % 64)) word,
    )

-- Three pages are free, and the count is 2 ^ 64 - 55.
count_free_example : bitmap_count_free three_free ≡ 2 ^ 64 - 55
unfolding clear_bits test_bit
count_free_example = bitmap_count_free_lem three_free-IsValid three_free-PaddingSet
