-- ===== src/Base/Bits.antt =====
-- Single bits of numbers, and what `&`, `|`, `^` and `~` of C do to them.
pub mod Step
use Prim.Native.Nat.{ℕ, zero, suc, ◌+◌, ◌-◌, ◌*◌, ◌/◌, ◌%◌, ◌^◌, ◌≤◌, ◌<◌, bit_and, bit_or, bit_xor}
use mathlib.Core.Path.{◌≡◌, refl, ap, sym, ◌∙◌}
use mathlib.Core.Bool.{Bool, true, false, ◌&&◌, ◌||◌, not}
use native.Mathlib.Omega.{arith}
use native.Mathlib.Nat.{
  pow-suc, pow-succ', one-le-pow, div-div-eq-div-mul, mod-eq-sub-div-mul, div-mul-le_self,
  mod-eq_of_lt,
}
use native.Mathlib.Decide.{dec_lt}
use ocean_linux.Base.Tests.{◌==◌, if◌then◌else◌}
use Step.{bit_and_step, bit_or_step, bit_xor_step, bit_and-le, bit_and-zero, bit_or-zero}

-- Bit `i` of `w`, counted from the lowest.
unfoldable pub bit : ℕ → ℕ → Bool
bit w zero = w % 2 == 1
bit w (suc i) = bit (w / 2) i

pub two_pow_pos : (k : ℕ) → 1 ≤ 2 ^ k
two_pow_pos k = one-le-pow k 2 (omega arith)

pub two_pow_lt : (k w : ℕ) → k < w → 2 ^ k < 2 ^ w
two_pow_lt k zero h = elim h [ ]
two_pow_lt zero (suc w) h = omega (arith, pow-suc 2 w, two_pow_pos w)
two_pow_lt (suc k) (suc w) h = omega (arith, pow-suc 2 k, pow-suc 2 w, two_pow_lt k w (omega arith))

-- `~a` in a word of `w` bits.
abbrev pub bit_not : ℕ → ℕ → ℕ
bit_not w a = 2 ^ w - 1 - a

module _ (a b : ℕ) where
  half-bit_and : bit_and a b / 2 ≡ bit_and (a / 2) (b / 2)
  half-bit_and = omega (arith, bit_and_step a b)

  half-bit_or : bit_or a b / 2 ≡ bit_or (a / 2) (b / 2)
  half-bit_or = omega (arith, bit_or_step a b)

  half-bit_xor : bit_xor a b / 2 ≡ bit_xor (a / 2) (b / 2)
  half-bit_xor = ground (arith, bit_xor_step a b)

pub bit-bit_and : (a b i : ℕ) → bit (bit_and a b) i ≡ bit a i && bit b i
unfolding bit
bit-bit_and a b zero = ground (arith, bit_and_step a b)
bit-bit_and a b (suc i) = rw (half-bit_and a b) (bit-bit_and (a / 2) (b / 2) i)

pub bit-bit_or : (a b i : ℕ) → bit (bit_or a b) i ≡ bit a i || bit b i
unfolding bit
bit-bit_or a b zero = ground (arith, bit_or_step a b)
bit-bit_or a b (suc i) = rw (half-bit_or a b) (bit-bit_or (a / 2) (b / 2) i)

pub bit-bit_xor : (a b i : ℕ) → bit (bit_xor a b) i ≡ (if bit a i then not (bit b i) else bit b i)
unfolding bit
bit-bit_xor a b zero = ground (arith, bit_xor_step a b)
bit-bit_xor a b (suc i) = rw (half-bit_xor a b) (bit-bit_xor (a / 2) (b / 2) i)

pub bit-zero : (i : ℕ) → bit 0 i ≡ false
unfolding bit
bit-zero zero = refl
bit-zero (suc i) = bit-zero i

half-two_pow : (k : ℕ) → 2 ^ suc k / 2 ≡ 2 ^ k
half-two_pow k = omega (arith, pow-suc 2 k)

pub bit-two_pow : (k i : ℕ) → bit (2 ^ k) i ≡ (k == i)
unfolding bit
bit-two_pow zero zero = refl
bit-two_pow zero (suc i) = rw (bit-zero i) (ground arith)
bit-two_pow (suc k) zero = ground (arith, pow-suc 2 k)
bit-two_pow (suc k) (suc i) = rw (half-two_pow k, bit-two_pow k i) (ground arith)

pub bit_above : (w a i : ℕ) → a < 2 ^ w → w ≤ i → bit a i ≡ false
unfolding bit
bit_above zero a i h k = rw (zero_a) (bit-zero i)
  where
    zero_a : a ≡ 0
    zero_a = omega arith
bit_above (suc w) a zero h k = absurd (omega arith)
bit_above (suc w) a (suc i) h k = bit_above w (a / 2) i (omega (arith, pow-suc 2 w)) (omega arith)

pub bit-bit_not : (w a i : ℕ) → a < 2 ^ w → i < w → bit (bit_not w a) i ≡ not (bit a i)
unfolding bit
bit-bit_not zero a i h k = elim k [ ]
bit-bit_not (suc w) a zero h k = ground (arith, pow-suc 2 w)
bit-bit_not (suc w) a (suc i) h k =
    rw halves (bit-bit_not w (a / 2) i (omega (arith, pow-suc 2 w)) (omega arith))
  where
    halves : (2 ^ suc w - 1 - a) / 2 ≡ 2 ^ w - 1 - a / 2
    halves = omega (arith, pow-suc 2 w)

-- `w & (1 << j)`.
pub bit_and-two_pow : (w j : ℕ) → bit_and w (2 ^ j) ≡ (if bit w j then 2 ^ j else 0)
unfolding bit
bit_and-two_pow w zero = ground (arith, bit_and_step w 1, bit_and-zero (w / 2))
bit_and-two_pow w (suc j) =
    ground (arith, bit_and_step w (2 ^ suc j), pow-suc 2 j, bit_and-two_pow (w / 2) j)

pub bit_and_lt : (w a b : ℕ) → a < 2 ^ w → bit_and a b < 2 ^ w
bit_and_lt w a b h = omega (arith, bit_and-le a b)

pub bit_or_lt : (w a b : ℕ) → a < 2 ^ w → b < 2 ^ w → bit_or a b < 2 ^ w
bit_or_lt zero a b h k = ground (arith, bit_or-zero a)
bit_or_lt (suc w) a b h k = omega (
  arith,
  bit_or_step a b,
  pow-suc 2 w,
  bit_or_lt w (a / 2) (b / 2) (omega (arith, pow-suc 2 w)) (omega (arith, pow-suc 2 w)),
)

-- Numbers of `w` bits that agree bit by bit are equal.
pub bits_ext : (w a b : ℕ) → a < 2 ^ w → b < 2 ^ w → ((i : ℕ) → bit a i ≡ bit b i) → a ≡ b
unfolding bit
bits_ext zero a b h k e = omega arith
bits_ext (suc w) a b h k e = ground (
  arith,
  e 0,
  bits_ext w (a / 2) (b / 2) (omega (arith, pow-suc 2 w)) (omega (arith, pow-suc 2 w))
      (λ i. e (suc i)),
)

-- `(w >> j) & 1`.
pub shift_right_bit : (w j : ℕ) → (w / 2 ^ j % 2 == 1) ≡ bit w j
unfolding bit
shift_right_bit w zero = ap (λ k. k % 2 == 1) (omega arith)
shift_right_bit w (suc j) = ap (λ k. k % 2 == 1) shifted ∙ shift_right_bit (w / 2) j
  where
    shifted : w / 2 ^ suc j ≡ w / 2 / 2 ^ j
    shifted = ap (λ k. w / k) (pow-succ' 2 j) ∙ sym (div-div-eq-div-mul w 2 (2 ^ j))

half-shift : (k x : ℕ) → x / 2 ^ suc k ≡ x / 2 / 2 ^ k
half-shift k x = ap (λ d. x / d) (pow-succ' 2 k) ∙ sym (div-div-eq-div-mul x 2 (2 ^ k))

half-shift-mul : (k x : ℕ) → x / 2 ^ suc k * 2 ^ suc k ≡ 2 * (x / 2 / 2 ^ k * 2 ^ k)
half-shift-mul k x = omega (
  arith,
  ap (λ (q : ℕ). q * 2 ^ suc k) (half-shift k x),
  ap (λ (p : ℕ). x / 2 / 2 ^ k * p) (pow-suc 2 k),
)

-- A mask of `k` low bits leaves the remainder by `2 ^ k`.
pub bit_and_low : (k x : ℕ) → bit_and x (2 ^ k - 1) ≡ x % 2 ^ k
bit_and_low zero x = omega (arith, bit_and-zero x)
bit_and_low (suc k) x = omega (
  arith,
  bit_and_step x (2 ^ suc k - 1),
  ap (bit_and (x / 2)) halves,
  bit_and_low k (x / 2),
  pow-suc 2 k,
  two_pow_pos k,
  half-shift-mul k x,
  mod-eq-sub-div-mul x (2 ^ suc k),
  mod-eq-sub-div-mul (x / 2) (2 ^ k),
  div-mul-le_self (x / 2) (2 ^ k),
)
  where
    halves : (2 ^ suc k - 1) / 2 ≡ 2 ^ k - 1
    halves = omega (arith, pow-suc 2 k, two_pow_pos k)

-- In a word of `w` bits the complement of that mask leaves the rest.
pub bit_and_high : (w k x : ℕ) → x < 2 ^ w → k ≤ w → bit_and x (2 ^ w - 2 ^ k) ≡ x / 2 ^ k * 2 ^ k
bit_and_high w zero x h l = omega (arith, bit_and_low w x, mod-eq_of_lt h)
bit_and_high zero (suc k) x h l = elim l [ ]
bit_and_high (suc w) (suc k) x h l = omega (
  arith,
  bit_and_step x (2 ^ suc w - 2 ^ suc k),
  ap (bit_and (x / 2)) halves,
  bit_and_high w k (x / 2) (omega (arith, pow-suc 2 w)) (omega arith),
  pow-suc 2 k,
  pow-suc 2 w,
  half-shift-mul k x,
)
  where
    halves : (2 ^ suc w - 2 ^ suc k) / 2 ≡ 2 ^ w - 2 ^ k
    halves = omega (arith, pow-suc 2 k, pow-suc 2 w)

pub two_pow_mono : (k w : ℕ) → k ≤ w → 2 ^ k ≤ 2 ^ w
two_pow_mono k w h = elim (dec_lt k w) [
  | yes less ↦ omega (arith, two_pow_lt k w less)
  | no equal ↦ omega (arith, ap (λ (x : ℕ). 2 ^ x) (same equal))
]
  where
    same : ¬ (k < w) → k ≡ w
    same n = omega arith
