-- ===== src/MemBitmap/Align.antt =====
-- Rounding an address to pages: PAGE_ALIGN_DOWN takes the page that holds it, PAGE_ALIGN the first
-- page that begins at it or after it.
use ocean_linux.Base.Bits.{bit_and_high}
use ocean_linux.Base.{ℕ, ◌+◌, ◌<◌, ◌≡◌, ◌/◌, arith, ◌%◌}
use ocean_linux.MemBitmap.{page_align, phys_to_pfn, page_align_down, word_mod}

pub phys_to_pfn-page_align_down :
    (x : ℕ) → x < word_mod → phys_to_pfn (page_align_down x) ≡ x / 4096
unfolding phys_to_pfn page_align_down
phys_to_pfn-page_align_down x h = omega (arith, bit_and_high 64 12 x h (omega arith))

pub phys_to_pfn-page_align :
    (x : ℕ) → x + 4095 < word_mod → phys_to_pfn (page_align x) ≡ (x + 4095) / 4096
unfolding phys_to_pfn page_align
phys_to_pfn-page_align x h =
    omega (arith, bit_and_high 64 12 ((x + 4095) % word_mod) (omega arith) (omega arith))
