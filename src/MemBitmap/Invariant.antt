-- ===== src/MemBitmap/Invariant.antt =====
-- The invariant of the page bitmap: its words cover its pages, and no page number wraps.
use ocean_linux.Base.Bits.{shift_right_bit}
use ocean_linux.Base.BitArray.{
  AreWords, test_bit, length-clear_bit, length-set_bit, test_bit-set_bit, test_bit-clear_bit,
  clear_bit-AreWords, set_bit-AreWords, test_bit-bit,
}
use ocean_linux.Base.{
  ℕ, Bool, true, false, if◌then◌else◌, ◌≤◌, length, replicate, ◌+◌, ◌<◌, ◌≡◌, ltb, ◌*◌, leb, arith,
  length-replicate, ◌==◌, ◌/◌, ◌-◌, not, ap, get_or, ◌∙◌, suc, ◌%◌, zero, sym, Bool-cases, inr, inl,
}
use ocean_linux.MemBitmap.{
  MemBitmap, mem_bitmap_is_usable, bitmap_test_bit, mem_bitmap_init, limit_pfn, bitmap_clear_bit,
  bitmap_set_bit, word_mod, offset, covered,
}

pub record IsValid (m : MemBitmap) : Type 0 where
  pub stored : length m.bits ≡ m.nr_words
  pub enough : m.nr_bits ≤ 64 * m.nr_words
  pub no_wrap : m.base_pfn + 64 * m.nr_words < word_mod
  pub words : AreWords m.bits

full-AreWords : (n : ℕ) → AreWords (replicate n (word_mod - 1))
full-AreWords zero k = omega arith
full-AreWords (suc n) zero = omega arith
full-AreWords (suc n) (suc k) = full-AreWords n k

-- mem_bitmap_init gives a valid bitmap for any number of pages that 64 bits can round up.
pub mem_bitmap_init-IsValid :
    (max_pfn : ℕ) → max_pfn + 128 < word_mod → IsValid (mem_bitmap_init max_pfn)
unfolding mem_bitmap_init
mem_bitmap_init-IsValid max_pfn h = record {
  stored = length-replicate _ _;
  enough = omega arith;
  no_wrap = omega arith;
  words = full-AreWords _;
}

pub bitmap_test_bit-test_bit :
    (m : MemBitmap) (pfn : ℕ) → bitmap_test_bit m pfn ≡ test_bit m.bits (offset m pfn)
unfolding bitmap_test_bit
bitmap_test_bit-test_bit m pfn =
    shift_right_bit (get_or m.bits (offset m pfn / 64) 0) (offset m pfn % 64)
    ∙ sym (test_bit-bit m.bits (offset m pfn))

-- Whether a page lies in the bitmap and its bit is clear.
unfoldable pub free_at : MemBitmap → ℕ → Bool
free_at m pfn =
    if ltb pfn m.base_pfn
    then false
    else if leb (m.base_pfn + m.nr_bits) pfn
    then false
    else not (test_bit m.bits (pfn - m.base_pfn))

module _ {m : MemBitmap} (v : IsValid m) where
  pub offset_inside :
      (pfn : ℕ) → m.base_pfn ≤ pfn → pfn < m.base_pfn + m.nr_bits → offset m pfn ≡ pfn - m.base_pfn
  offset_inside pfn h k = omega (arith, v.enough, v.no_wrap)

  pub word_inside :
      (pfn : ℕ)
      → m.base_pfn ≤ pfn
      → pfn < m.base_pfn + m.nr_bits
      → offset m pfn / 64 < length m.bits
  word_inside pfn h k = omega (arith, v.enough, v.no_wrap, v.stored)

  pub limit-eq : limit_pfn m ≡ m.base_pfn + m.nr_bits
  limit-eq = omega (arith, v.enough, v.no_wrap)

  pub mem_bitmap_is_usable-free_at : (pfn : ℕ) → mem_bitmap_is_usable m pfn ≡ free_at m pfn
  unfolding mem_bitmap_is_usable free_at
  mem_bitmap_is_usable-free_at pfn = elim (Bool-cases (covered m pfn)) [
    | inr out ↦ ground (arith, limit-eq)
    | inl in_range ↦
        let same : offset m pfn ≡ pfn - m.base_pfn =
          offset_inside pfn (ground arith) (ground (arith, limit-eq)) in
        ground (arith, limit-eq, bitmap_test_bit-test_bit m pfn, ap (test_bit m.bits) same)
  ]

  module _ (pfn : ℕ) (above : m.base_pfn ≤ pfn) (below : pfn < m.base_pfn + m.nr_bits) where
    pub bitmap_set_bit-IsValid : IsValid (bitmap_set_bit m pfn)
    unfolding bitmap_set_bit
    bitmap_set_bit-IsValid = record {
      stored = length-set_bit m.bits _ ∙ v.stored;
      enough = v.enough;
      no_wrap = v.no_wrap;
      words = set_bit-AreWords m.bits _ (word_inside pfn above below) v.words;
    }

    pub bitmap_clear_bit-IsValid : IsValid (bitmap_clear_bit m pfn)
    unfolding bitmap_clear_bit
    bitmap_clear_bit-IsValid = record {
      stored = length-clear_bit m.bits _ ∙ v.stored;
      enough = v.enough;
      no_wrap = v.no_wrap;
      words = clear_bit-AreWords m.bits _ (word_inside pfn above below) v.words;
    }

    pub free_at-set_bit :
        (q : ℕ) → free_at (bitmap_set_bit m pfn) q ≡ (if pfn == q then false else free_at m q)
    unfolding bitmap_set_bit free_at
    free_at-set_bit q = ground (
      arith,
      offset_inside pfn above below,
      test_bit-set_bit m.bits (offset m pfn) (word_inside pfn above below) (q - m.base_pfn),
    )

    pub free_at-clear_bit :
        (q : ℕ) → free_at (bitmap_clear_bit m pfn) q ≡ (if pfn == q then true else free_at m q)
    unfolding bitmap_clear_bit free_at
    free_at-clear_bit q = ground (
      arith,
      offset_inside pfn above below,
      test_bit-clear_bit m.bits (offset m pfn) (word_inside pfn above below) (q - m.base_pfn),
    )
