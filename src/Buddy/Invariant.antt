-- ===== src/Buddy/Invariant.antt =====
-- The invariant of a zone: the free lists and the page flags agree, blocks are aligned and lie in
-- the zone, and no page is free twice.
use ocean_linux.Base.Bits.{
  bit_not, two_pow_pos, bit_and-two_pow, bit-bit_or, bit-bit_and, bit-bit_not, bit-two_pow,
}
use ocean_linux.Buddy.Cover.{cover, listed, listed-le-cover_list, cover_list-le-cover_areas}
use ocean_linux.Buddy.Split.{in_block}
use ocean_linux.Base.{
  ℕ, true, ◌≡◌, ◌≤◌, ◌<◌, bit_and, List, ◌+◌, arith, bit_or, ◌*◌, ◌^◌, length, ◌%◌,
}
use ocean_linux.Buddy.{Zone, word_mod, max_order, pg_buddy, has_buddy_flag}

abbrev pub blocks : Zone → ℕ → List ℕ
blocks zone order = (zone.free_area order).free_list

-- A block of 2 ^ o pages stands at a multiple of its size, inside the zone.
pub record Placed (start end b o : ℕ) : Type 0 where
  pub number : ℕ
  pub aligned : b ≡ number * 2 ^ o
  pub first : start ≤ b
  pub last : b + 2 ^ o ≤ end

pub record IsValid (zone : Zone) : Type 0 where
  pub small : zone.end_pfn < word_mod
  pub placed :
      (o b : ℕ)
      → o < max_order
      → listed b (blocks zone o) ≡ true
      → Placed zone.start_pfn zone.end_pfn b o
  pub marked :
      (o b : ℕ)
      → o < max_order
      → listed b (blocks zone o) ≡ true
      → (has_buddy_flag (zone.page_array b) ≡ true) × ((zone.page_array b).order ≡ o)
  pub complete :
      (b : ℕ)
      → zone.start_pfn ≤ b
      → b < zone.end_pfn
      → has_buddy_flag (zone.page_array b) ≡ true
      → ((zone.page_array b).order < max_order)
        × (listed b (blocks zone (zone.page_array b).order) ≡ true)
  pub counted :
      (o : ℕ) → o < max_order → (zone.free_area o).nr_free ≡ length (blocks zone o) % word_mod
  pub disjoint : (p : ℕ) → cover zone p ≤ 1

-- No page of the block is free.
abbrev pub Uncovered : Zone → ℕ → ℕ → Type 0
Uncovered zone b o = (p : ℕ) → b ≤ p → p < b + 2 ^ o → cover zone p ≡ 0

pub in_block_self : (b o : ℕ) → in_block b o b ≡ 1
in_block_self b o = ground (arith, two_pow_pos o)

-- A listed block's first page is covered.
pub listed-cover :
    (zone : Zone) (o b : ℕ) → o < max_order → listed b (blocks zone o) ≡ true → 1 ≤ cover zone b
unfolding cover
listed-cover zone o b h e = omega (
  arith,
  in_block_self b o,
  listed-le-cover_list b (blocks zone o) o b e,
  cover_list-le-cover_areas zone.free_area max_order o b h,
)

pub flag_after_set : (flags : ℕ) → bit_and (bit_or flags pg_buddy) pg_buddy ≡ 2
flag_after_set flags =
    ground (
      arith,
      bit_and-two_pow (bit_or flags pg_buddy) 1,
      bit-bit_or flags pg_buddy 1,
      bit-two_pow 1 1,
    )

pub flag_after_clear : (flags : ℕ) → bit_and (bit_and flags (bit_not 32 pg_buddy)) pg_buddy ≡ 0
flag_after_clear flags = ground (
  arith,
  bit_and-two_pow (bit_and flags (bit_not 32 pg_buddy)) 1,
  bit-bit_and flags (bit_not 32 pg_buddy) 1,
  bit-bit_not 32 pg_buddy 1,
  bit-two_pow 1 1,
)
