-- ===== src/Base/BitArray.antt =====
-- An array of 64-bit words read as an array of bits, as the kernel's bitmaps are.
use ocean_linux.Base.Tests.{◌==◌, if◌then◌else◌}
use ocean_linux.Base.Lists.{
  length, get_or, set, length-set, get_or-set, replicate, get_or-replicate,
}
use ocean_linux.Base.Bits.{
  bit, bit_not, bit-bit_and, bit-bit_or, bit-bit_not, bit-two_pow, bit_and-two_pow, bit-zero,
  bit_and_lt, bit_or_lt, two_pow_pos, two_pow_lt,
}
use Prim.Native.Nat.{ℕ, ◌/◌, ◌%◌, ◌^◌, ◌<◌, bit_and, bit_or}
use mathlib.Core.Path.{◌≡◌}
use mathlib.Core.Bool.{Bool, true, false, not}
use mathlib.Core.List.{List}
use native.Mathlib.Omega.{arith}

-- `words[i / 64] & (1ULL << (i % 64))`, as a condition.
unfoldable pub test_bit : List ℕ → ℕ → Bool
test_bit words i = not (bit_and (get_or words (i / 64) 0) (2 ^ (i % 64)) == 0)

-- `words[i / 64] |= (1ULL << (i % 64))`
unfoldable pub set_bit : List ℕ → ℕ → List ℕ
set_bit words i = set words (i / 64) (bit_or (get_or words (i / 64) 0) (2 ^ (i % 64)))

-- `words[i / 64] &= ~(1ULL << (i % 64))`
unfoldable pub clear_bit : List ℕ → ℕ → List ℕ
clear_bit words i =
    set words (i / 64) (bit_and (get_or words (i / 64) 0) (bit_not 64 (2 ^ (i % 64))))

-- Every entry is a 64-bit word.
abbrev pub AreWords : List ℕ → Type 0
AreWords words = (k : ℕ) → get_or words k 0 < 2 ^ 64

pub test_bit-bit :
    (words : List ℕ) (i : ℕ) → test_bit words i ≡ bit (get_or words (i / 64) 0) (i % 64)
unfolding test_bit
test_bit-bit words i =
    ground (arith, bit_and-two_pow (get_or words (i / 64) 0) (i % 64), two_pow_pos (i % 64))

same_place : (i j : ℕ) → i / 64 ≡ j / 64 → i % 64 ≡ j % 64 → i ≡ j
same_place i j p q = omega arith

pub length-set_bit : (words : List ℕ) (i : ℕ) → length (set_bit words i) ≡ length words
unfolding set_bit
length-set_bit words i = length-set words _ _

pub length-clear_bit : (words : List ℕ) (i : ℕ) → length (clear_bit words i) ≡ length words
unfolding clear_bit
length-clear_bit words i = length-set words _ _

module _ (words : List ℕ) (i : ℕ) (fits : i / 64 < length words) where
  -- Setting a bit sets that bit and no other.
  pub test_bit-set_bit :
      (j : ℕ) → test_bit (set_bit words i) j ≡ (if i == j then true else test_bit words j)
  unfolding set_bit
  test_bit-set_bit j = ground (
    arith,
    test_bit-bit (set_bit words i) j,
    test_bit-bit words j,
    get_or-set words (i / 64) (j / 64) (bit_or (get_or words (i / 64) 0) (2 ^ (i % 64))) 0 fits,
    bit-bit_or (get_or words (i / 64) 0) (2 ^ (i % 64)) (j % 64),
    bit-two_pow (i % 64) (j % 64),
  )

  pub test_bit-clear_bit :
      (j : ℕ) → test_bit (clear_bit words i) j ≡ (if i == j then false else test_bit words j)
  unfolding clear_bit
  test_bit-clear_bit j = ground (
    arith,
    test_bit-bit (clear_bit words i) j,
    test_bit-bit words j,
    get_or-set words (i / 64) (j / 64)
        (bit_and (get_or words (i / 64) 0) (bit_not 64 (2 ^ (i % 64)))) 0 fits,
    bit-bit_and (get_or words (i / 64) 0) (bit_not 64 (2 ^ (i % 64))) (j % 64),
    bit-bit_not 64 (2 ^ (i % 64)) (j % 64),
    two_pow_lt (i % 64) 64,
    bit-two_pow (i % 64) (j % 64),
  )

  pub set_bit-AreWords : AreWords words → AreWords (set_bit words i)
  unfolding set_bit
  set_bit-AreWords h k = ground (
    arith,
    h k,
    h (i / 64),
    two_pow_lt (i % 64) 64,
    get_or-set words (i / 64) k (bit_or (get_or words (i / 64) 0) (2 ^ (i % 64))) 0 fits,
    bit_or_lt 64 (get_or words (i / 64) 0) (2 ^ (i % 64)),
  )

  pub clear_bit-AreWords : AreWords words → AreWords (clear_bit words i)
  unfolding clear_bit
  clear_bit-AreWords h k = ground (
    arith,
    h k,
    h (i / 64),
    get_or-set words (i / 64) k (bit_and (get_or words (i / 64) 0) (bit_not 64 (2 ^ (i % 64)))) 0
        fits,
    bit_and_lt 64 (get_or words (i / 64) 0) (bit_not 64 (2 ^ (i % 64))),
  )

-- In an array of zeros no bit is set.
pub test_bit-zeros : (n i : ℕ) → test_bit (replicate n 0) i ≡ false
test_bit-zeros n i = rw (test_bit-bit, get_or-replicate {A = ℕ} n (i / 64) 0) (bit-zero (i % 64))

pub zeros-AreWords : (n : ℕ) → AreWords (replicate n 0)
zeros-AreWords n k = rw (get_or-replicate {A = ℕ} n k 0) (omega arith)
