-- ===== src/MemBitmap.antt =====
-- kernel/mm/bitmap.c: one bit for each physical page, 0 for a free page and 1 for one in use.
-- The static mem_bitmap is a record that each function takes and, if it writes, returns. A page
-- number is a pfn_t, an unsigned number of 64 bits, so sums and differences of page numbers are
-- taken modulo 2 ^ 64. The result (pfn_t)-1 is `none`. Each function that the file exports holds
-- the spinlock from start to end: one step. The dumps print only, and are left out but for the
-- count of free pages.
pub mod Align
pub mod Invariant
pub mod Range
pub mod Usable
pub mod Find
pub mod FindRange
pub mod Count
mod Tests
use ocean_linux.Base.Bits.{bit_not}
use ocean_linux.Base.BitArray.{clear_bit, set_bit}
use ocean_linux.Base.{
  ℕ, Bool, true, false, Option, ◌%◌, replicate, ◌/◌, if◌then◌else◌, suc, List, get_or, ◌*◌, ◌+◌,
  ◌^◌, leb, bit_and, ◌==◌, ◌-◌, ◌&&◌, ltb, none, zero, ◌||◌, some, not,
}

pub record MemBitmap : Type 0 where
  pub bits : List ℕ
  pub nr_bits : ℕ
  pub nr_words : ℕ
  pub base_pfn : ℕ

abbrev pub word_mod : ℕ
word_mod = 2 ^ 64

-- `pfn - mem_bitmap.base_pfn`
abbrev pub offset : MemBitmap → ℕ → ℕ
offset m pfn = (pfn + word_mod - m.base_pfn) % word_mod

-- `mem_bitmap.base_pfn + mem_bitmap.nr_bits`
abbrev pub limit_pfn : MemBitmap → ℕ
limit_pfn m = (m.base_pfn + m.nr_bits) % word_mod

pub word_index : MemBitmap → ℕ → ℕ
word_index m pfn = offset m pfn / 64

pub bit_index : MemBitmap → ℕ → ℕ
bit_index m pfn = offset m pfn % 64

-- `(bits[word_index(pfn)] >> bit_index(pfn)) & 1`
pub bitmap_test_bit : MemBitmap → ℕ → Bool
unfolding word_index bit_index
bitmap_test_bit m pfn = get_or m.bits (word_index m pfn) 0 / 2 ^ bit_index m pfn % 2 == 1

pub bitmap_set_bit : MemBitmap → ℕ → MemBitmap
bitmap_set_bit m pfn = record m { bits = set_bit m.bits (offset m pfn) }

pub bitmap_clear_bit : MemBitmap → ℕ → MemBitmap
bitmap_clear_bit m pfn = record m { bits = clear_bit m.bits (offset m pfn) }

-- The guard of both range loops.
abbrev pub covered : MemBitmap → ℕ → Bool
covered m pfn = leb m.base_pfn pfn && ltb pfn (limit_pfn m)

-- The loops over `pfn`, with the rounds left.
pub set_from : ℕ → ℕ → MemBitmap → MemBitmap
set_from zero pfn m = m
set_from (suc n) pfn m = set_from n (suc pfn) (if covered m pfn then bitmap_set_bit m pfn else m)

pub clear_from : ℕ → ℕ → MemBitmap → MemBitmap
clear_from zero pfn m = m
clear_from (suc n) pfn m =
    clear_from n (suc pfn) (if covered m pfn then bitmap_clear_bit m pfn else m)

pub bitmap_set_range : MemBitmap → ℕ → ℕ → MemBitmap
bitmap_set_range m start_pfn nr_pages =
    let end_pfn = (start_pfn + nr_pages) % word_mod in set_from (end_pfn - start_pfn) start_pfn m

pub bitmap_clear_range : MemBitmap → ℕ → ℕ → MemBitmap
bitmap_clear_range m start_pfn nr_pages =
    let end_pfn = (start_pfn + nr_pages) % word_mod in clear_from (end_pfn - start_pfn) start_pfn m

-- `while (tmp) { set_bits += tmp & 1; tmp >>= 1; }` on a word: 64 rounds are enough.
pub popcount : ℕ → ℕ → ℕ
popcount zero tmp = 0
popcount (suc n) tmp = let rest = popcount n (tmp / 2) in if tmp == 0 then 0 else tmp % 2 + rest

-- The words from number `i` on, with the rounds left.
pub count_words : MemBitmap → ℕ → ℕ → ℕ
count_words m zero i = 0
count_words m (suc n) i = (64 - popcount 64 (get_or m.bits i 0)) + count_words m n (suc i)

pub bitmap_count_free : MemBitmap → ℕ
bitmap_count_free m =
    let extra_bits = m.nr_words * 64 - m.nr_bits in
    (count_words m m.nr_words 0 + word_mod - extra_bits) % word_mod

-- The inner loop over `j` in word `i`.
pub find_in_word : MemBitmap → ℕ → ℕ → ℕ → Option ℕ
find_in_word m i zero j = none
find_in_word m i (suc n) j =
    let rest = find_in_word m i n (suc j) in
    let pfn = (m.base_pfn + i * 64 + j) % word_mod in
    if bit_and (get_or m.bits i 0) (2 ^ j) == 0 && ltb pfn (limit_pfn m) then some pfn else rest

pub find_free_from : MemBitmap → ℕ → ℕ → Option ℕ
find_free_from m zero i = none
find_free_from m (suc n) i =
    let rest = find_free_from m n (suc i) in
    if get_or m.bits i 0 == word_mod - 1
    then rest
    else elim (find_in_word m i 64 0) [ some pfn ↦ some pfn | none ↦ rest ]

pub bitmap_find_free : MemBitmap → Option ℕ
bitmap_find_free m = find_free_from m m.nr_words 0

-- The loop over `pfn`, with `count` and `range_start`.
pub find_range_from : MemBitmap → ℕ → ℕ → ℕ → ℕ → ℕ → Option ℕ
find_range_from m nr_pages zero pfn count range_start = none
find_range_from m nr_pages (suc n) pfn count range_start =
    let start = (if count == 0 then pfn else range_start) in
    let longer = find_range_from m nr_pages n (suc pfn) (count + 1) start in
    let anew = find_range_from m nr_pages n (suc pfn) 0 range_start in
    if not (bitmap_test_bit m pfn)
    then (if leb nr_pages (count + 1) then some start else longer)
    else anew

pub bitmap_find_free_range : MemBitmap → ℕ → Option ℕ
bitmap_find_free_range m nr_pages =
    find_range_from m nr_pages (limit_pfn m - m.base_pfn) m.base_pfn 0 0

-- The array at `bitmap_memory` has nr_words words.
pub mem_bitmap_init : ℕ → MemBitmap
mem_bitmap_init max_pfn = record {
  bits = replicate ((max_pfn + 63) % word_mod / 64) (word_mod - 1);
  nr_bits = max_pfn;
  nr_words = (max_pfn + 63) % word_mod / 64;
  base_pfn = 0;
}

-- PAGE_ALIGN, PAGE_ALIGN_DOWN and PHYS_TO_PFN.
pub page_align : ℕ → ℕ
page_align x = bit_and ((x + 4095) % word_mod) (bit_not 64 4095)

pub page_align_down : ℕ → ℕ
page_align_down x = bit_and x (bit_not 64 4095)

pub phys_to_pfn : ℕ → ℕ
phys_to_pfn phys = phys / 2 ^ 12

pub mem_bitmap_mark_usable : MemBitmap → ℕ → ℕ → MemBitmap
mem_bitmap_mark_usable m start end =
    let start_pfn = phys_to_pfn (page_align start) in
    let end_pfn = phys_to_pfn (page_align_down end) in
    if leb end_pfn start_pfn then m else bitmap_clear_range m start_pfn (end_pfn - start_pfn)

pub mem_bitmap_mark_reserved : MemBitmap → ℕ → ℕ → MemBitmap
mem_bitmap_mark_reserved m start end =
    let start_pfn = phys_to_pfn (page_align_down start) in
    let end_pfn = phys_to_pfn (page_align end) in
    if leb end_pfn start_pfn then m else bitmap_set_range m start_pfn (end_pfn - start_pfn)

pub mem_bitmap_is_usable : MemBitmap → ℕ → Bool
mem_bitmap_is_usable m pfn =
    if ltb pfn m.base_pfn || leb (limit_pfn m) pfn then false else not (bitmap_test_bit m pfn)

pub mem_bitmap_alloc_page : MemBitmap → MemBitmap × Option ℕ
mem_bitmap_alloc_page m = elim (bitmap_find_free m) [
  | none ↦ (m, none)
  | some pfn ↦ (bitmap_set_bit m pfn, some pfn)
]

pub mem_bitmap_alloc_pages : MemBitmap → ℕ → MemBitmap × Option ℕ
mem_bitmap_alloc_pages m nr_pages = elim (bitmap_find_free_range m nr_pages) [
  | none ↦ (m, none)
  | some pfn ↦ (bitmap_set_range m pfn nr_pages, some pfn)
]

pub mem_bitmap_free_page : MemBitmap → ℕ → MemBitmap
mem_bitmap_free_page m pfn =
    if ltb pfn m.base_pfn || leb (limit_pfn m) pfn then m else bitmap_clear_bit m pfn

pub mem_bitmap_free_pages : MemBitmap → ℕ → ℕ → MemBitmap
mem_bitmap_free_pages m start_pfn nr_pages = bitmap_clear_range m start_pfn nr_pages

pub mem_bitmap_size_for : ℕ → ℕ
mem_bitmap_size_for max_pfn = (max_pfn + 63) % word_mod / 64 * 8 % word_mod
