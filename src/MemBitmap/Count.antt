-- ===== src/MemBitmap/Count.antt =====
-- What bitmap_count_free counts: the clear bits of all words, less the bits past the last page.
use ocean_linux.Base.Bits.{shift_right_bit}
use ocean_linux.MemBitmap.Invariant.{IsValid}
use native.Mathlib.Nat.{add-zero, zero-add, pow-suc, div-div-eq-div-mul, div-one}
use mathlib.Core.Path.{ap₂}
use ocean_linux.Base.BitArray.{test_bit, test_bit-bit}
use ocean_linux.Base.{
  ℕ, true, suc, List, if◌then◌else◌, ◌≡◌, ◌%◌, ◌+◌, ◌==◌, ◌/◌, zero, ap, refl, ◌*◌, arith, get_or,
  ◌^◌, ◌∙◌, ◌≤◌, ◌<◌, sym, ◌-◌,
}
use ocean_linux.MemBitmap.{MemBitmap, popcount, bitmap_count_free, count_words, word_mod}

-- The pages from `lo` on, `n` of them, whose bits are clear.
unfoldable pub clear_bits : List ℕ → ℕ → ℕ → ℕ
clear_bits bits lo zero = 0
clear_bits bits lo (suc n) = (if test_bit bits lo then 0 else 1) + clear_bits bits (suc lo) n

-- The zeros among the low `n` bits of a word.
zeros : ℕ → ℕ → ℕ
zeros w zero = 0
zeros w (suc n) = (if w % 2 == 1 then 0 else 1) + zeros (w / 2) n

zeros-zero : (n : ℕ) → zeros 0 n ≡ n
unfolding zeros
zeros-zero zero = refl
zeros-zero (suc n) = omega (arith, zeros-zero n)

popcount-add-zeros : (n w : ℕ) → popcount n w + zeros w n ≡ n
unfolding popcount zeros
popcount-add-zeros zero w = refl
popcount-add-zeros (suc n) w = ground (arith, popcount-add-zeros n (w / 2), zeros-zero n)

-- The sum is given by equations, so that it may stand in any form.
clear_bits-append :
    (bits : List ℕ) (lo a b total mid : ℕ)
    → total ≡ a + b
    → mid ≡ lo + a
    → clear_bits bits lo total ≡ clear_bits bits lo a + clear_bits bits mid b
unfolding clear_bits
clear_bits-append bits lo zero b total mid e f =
    ap₂ (clear_bits bits) (omega arith) (omega arith) ∙ sym (zero-add _)
clear_bits-append bits lo (suc a) b zero mid e f = absurd (omega arith)
clear_bits-append bits lo (suc a) b (suc total) mid e f =
    omega (arith, clear_bits-append bits (suc lo) a b total mid (omega arith) (omega arith))

clear_bits-word :
    (bits : List ℕ) (i j n : ℕ)
    → j + n ≡ 64
    → clear_bits bits (i * 64 + j) n ≡ zeros (get_or bits i 0 / 2 ^ j) n
unfolding clear_bits zeros
clear_bits-word bits i j zero e = refl
clear_bits-word bits i j (suc n) e =
    let word : (i * 64 + j) / 64 ≡ i = omega arith in
    let place : (i * 64 + j) % 64 ≡ j = omega arith in
    let next : suc (i * 64 + j) ≡ i * 64 + suc j = omega arith in
    let half : get_or bits i 0 / 2 ^ suc j ≡ get_or bits i 0 / 2 ^ j / 2 =
      ap (λ d. get_or bits i 0 / d) (pow-suc 2 j)
      ∙ sym (div-div-eq-div-mul (get_or bits i 0) (2 ^ j) 2) in
    rw
      (
        test_bit-bit,
        word,
        place,
        ← shift_right_bit (get_or bits i 0) j,
        next,
        clear_bits-word bits i (suc j) n (omega arith),
        half,
      )
      refl

count_words-clear_bits :
    (m : MemBitmap) (n i : ℕ) → count_words m n i ≡ clear_bits m.bits (i * 64) (n * 64)
unfolding count_words
count_words-clear_bits m zero i = unfold clear_bits in refl
count_words-clear_bits m (suc n) i =
    let word = get_or m.bits i 0 in
    omega (
      arith,
      clear_bits-append m.bits (i * 64) 64 (n * 64) (suc n * 64) (suc i * 64) (omega arith)
          (omega arith),
      ap (λ k. clear_bits m.bits k 64) (add-zero (i * 64)),
      clear_bits-word m.bits i 0 64 refl,
      ap (λ w. zeros w 64) (div-one word),
      popcount-add-zeros 64 word,
      count_words-clear_bits m n (suc i),
    )

-- The bits past the last page are set, as mem_bitmap_init leaves them.
abbrev pub PaddingSet : MemBitmap → Type 0
PaddingSet m = (j : ℕ) → m.nr_bits ≤ j → j < m.nr_words * 64 → test_bit m.bits j ≡ true

padding_zero :
    (bits : List ℕ) (lo n : ℕ)
    → ((j : ℕ) → lo ≤ j → j < lo + n → test_bit bits j ≡ true)
    → clear_bits bits lo n ≡ 0
unfolding clear_bits
padding_zero bits lo zero h = refl
padding_zero bits lo (suc n) h =
    ground (arith, h lo, padding_zero bits (suc lo) n (λ j p q. h j (omega arith) (omega arith)))

-- bitmap_count_free subtracts the bits past the last page although they are set and were never
-- counted: it returns the number of clear page bits less that many, modulo 2 ^ 64.
pub bitmap_count_free_lem :
    {m : MemBitmap}
    → IsValid m
    → PaddingSet m
    → bitmap_count_free m
      ≡ (clear_bits m.bits 0 m.nr_bits + word_mod - (m.nr_words * 64 - m.nr_bits)) % word_mod
unfolding bitmap_count_free
bitmap_count_free_lem {m} v padding =
    let extra = m.nr_words * 64 - m.nr_bits in
    let all : count_words m m.nr_words 0 ≡ clear_bits m.bits 0 m.nr_bits = omega (
      arith,
      count_words-clear_bits m m.nr_words 0,
      clear_bits-append m.bits 0 m.nr_bits extra (m.nr_words * 64) m.nr_bits
          (omega (arith, v.enough)) (omega arith),
      padding_zero m.bits m.nr_bits extra (λ j p q. padding j p (omega (arith, v.enough))),
    ) in
    ap (λ k. (k + word_mod - extra) % word_mod) all
