-- ===== src/Base/Bits/Step.antt =====
-- One binary digit of `&`, `|` and `^`, from the digit recursion that the native operations mean.
use Prim.Native.Nat.{
  ℕ, zero, suc, ◌+◌, ◌-◌, ◌*◌, ◌/◌, ◌%◌, ◌≤◌, ◌<◌, min, max, bit_and, bit_or, bit_xor, digits,
  bitwise, differ, bit_and-bitwise, bit_or-bitwise, bit_xor-bitwise,
}
use mathlib.Core.Path.{◌≡◌, refl, ap, ◌∙◌}
use native.Mathlib.Omega.{arith}

module _ (tail : ℕ → ℕ) (op : ℕ → ℕ → ℕ) where
  abbrev loop : ℕ → ℕ → ℕ → ℕ
  loop = digits tail op

  -- A round more than the number needs changes nothing.
  one_round : (rounds x y : ℕ) → x ≤ rounds → loop (suc rounds) x y ≡ loop rounds x y
  one_round rounds zero y fits = both rounds
    where
      both : (r : ℕ) → loop (suc r) 0 y ≡ loop r 0 y
      both zero = refl
      both (suc r) = refl
  one_round zero (suc x) y fits = elim fits [ ]
  one_round (suc rounds) (suc x) y fits =
      ap (λ d. d * 2 + op (suc x % 2) (y % 2)) (one_round rounds (suc x / 2) (y / 2) (omega arith))

  more_rounds :
      (extra rounds total x y : ℕ)
      → total ≡ extra + rounds
      → x ≤ rounds
      → loop total x y ≡ loop rounds x y
  more_rounds zero rounds total x y sum fits = ap (λ r. loop r x y) (omega arith)
  more_rounds (suc extra) rounds zero x y sum fits = absurd (omega arith)
  more_rounds (suc extra) rounds (suc total) x y sum fits =
      one_round total x y (omega arith) ∙ more_rounds extra rounds total x y (omega arith) fits

  low_digit :
      (x y : ℕ)
      → bitwise tail op (suc x) y ≡ bitwise tail op (suc x / 2) (y / 2) * 2 + op (suc x % 2) (y % 2)
  low_digit x y =
      ap (λ d. d * 2 + op (suc x % 2) (y % 2))
        (more_rounds (x - suc x / 2) (suc x / 2) x (suc x / 2) (y / 2) (omega arith) (omega arith))

pub bit_and_step : (x y : ℕ) → bit_and x y ≡ bit_and (x / 2) (y / 2) * 2 + min (x % 2) (y % 2)
bit_and_step zero y = simp bit_and-bitwise (omega arith)
bit_and_step (suc x) y = simp bit_and-bitwise (low_digit (λ _. 0) min x y)

pub bit_or_step : (x y : ℕ) → bit_or x y ≡ bit_or (x / 2) (y / 2) * 2 + max (x % 2) (y % 2)
bit_or_step zero y = simp bit_or-bitwise (omega arith)
bit_or_step (suc x) y = simp bit_or-bitwise (low_digit (λ d. d) max x y)

pub differ-mod : (x y : ℕ) → x < 2 → y < 2 → differ x y ≡ (x + y) % 2
differ-mod zero y h k = omega arith
differ-mod (suc zero) zero h k = refl
differ-mod (suc zero) (suc y) h k = omega arith
differ-mod (suc (suc x)) y h k = absurd (omega arith)

pub bit_xor_step : (x y : ℕ) → bit_xor x y ≡ bit_xor (x / 2) (y / 2) * 2 + (x + y) % 2
bit_xor_step zero y = simp bit_xor-bitwise (omega arith)
bit_xor_step (suc x) y = simp bit_xor-bitwise (
    omega (
      arith,
      low_digit (λ d. d) differ x y,
      differ-mod (suc x % 2) (y % 2) (omega arith) (omega arith),
    ))

-- Both bounds at once, for numbers up to `n`.
and_bounds : (n x y : ℕ) → x ≤ n → (bit_and x y ≤ x) × (bit_and x y ≤ y)
and_bounds n zero y h = omega (arith, bit_and-bitwise 0 y)
and_bounds zero (suc x) y h = elim h [ ]
and_bounds (suc n) (suc x) y h =
    omega (arith, bit_and_step (suc x) y, and_bounds n (suc x / 2) (y / 2) (omega arith))

pub bit_and-le : (x y : ℕ) → bit_and x y ≤ x
bit_and-le x y = (and_bounds x x y (omega arith)).0

pub bit_and-zero : (x : ℕ) → bit_and x 0 ≡ 0
bit_and-zero x = omega (arith, and_bounds x x 0 (omega arith))

or_with_zero : (n x : ℕ) → x ≤ n → bit_or x 0 ≡ x
or_with_zero n zero h = refl
or_with_zero zero (suc x) h = elim h [ ]
or_with_zero (suc n) (suc x) h =
    omega (arith, bit_or_step (suc x) 0, or_with_zero n (suc x / 2) (omega arith))

pub bit_or-zero : (x : ℕ) → bit_or x 0 ≡ x
bit_or-zero x = or_with_zero x x (omega arith)

xor_with_zero : (n x : ℕ) → x ≤ n → bit_xor x 0 ≡ x
xor_with_zero n zero h = refl
xor_with_zero zero (suc x) h = elim h [ ]
xor_with_zero (suc n) (suc x) h =
    omega (arith, bit_xor_step (suc x) 0, xor_with_zero n (suc x / 2) (omega arith))

pub bit_xor-zero : (x : ℕ) → bit_xor x 0 ≡ x
bit_xor-zero x = xor_with_zero x x (omega arith)
