-- ===== src/Buddy/Split.antt =====
-- Blocks of pages: the buddy of a block, and the block that the two make up.
use ocean_linux.Base.Bits.{bit_and_high, two_pow_lt}
use ocean_linux.Base.Bits.Step.{bit_xor_step, bit_xor-zero, bit_and_step}
use ocean_linux.Base.{
  ℕ, ◌<◌, if◌then◌else◌, bit_xor, ◌*◌, leb, ◌^◌, ◌&&◌, ◌≡◌, suc, ◌+◌, bit_and, ltb, ◌-◌, arith, ◌/◌,
  ◌%◌, ap, ◌⊎◌, inl, inr, dec_lt, zero, subst, sym, ◌∙◌,
}
use ocean_linux.Buddy.{buddy_pfn, combined_pfn}
use mathlib.Core.Path.{ap₂}
use native.Mathlib.Nat.{add_comm, pow-suc, mul_comm}

-- Times a power of two, in steps of two.
double : (o q : ℕ) → q * 2 ^ suc o ≡ 2 * (q * 2 ^ o)
double o q = omega (arith, ap (λ (p : ℕ). q * p) (pow-suc 2 o))

pub bit_xor-two_pow : (o q : ℕ) → bit_xor (q * 2 ^ o) (2 ^ o) ≡ (q / 2 * 2 + (q + 1) % 2) * 2 ^ o
bit_xor-two_pow zero q =
    let one : q * 2 ^ 0 ≡ q = omega arith in
    rw one (omega (arith, bit_xor_step q 1, bit_xor-zero (q / 2)))
bit_xor-two_pow (suc o) q =
    let left : q * 2 ^ suc o / 2 ≡ q * 2 ^ o = omega (arith, double o q) in
    let right : 2 ^ suc o / 2 ≡ 2 ^ o = omega (arith, pow-suc 2 o) in
    omega (
      arith,
      bit_xor_step (q * 2 ^ suc o) (2 ^ suc o),
      ap₂ bit_xor left right,
      bit_xor-two_pow o q,
      double o q,
      double o (q / 2 * 2 + (q + 1) % 2),
      pow-suc 2 o,
    )

pub bit_and-not_two_pow :
    (o w q : ℕ)
    → o < w
    → q * 2 ^ o < 2 ^ w
    → bit_and (q * 2 ^ o) (2 ^ w - 1 - 2 ^ o) ≡ q / 2 * 2 * 2 ^ o
bit_and-not_two_pow o zero q h k = elim h [ ]
bit_and-not_two_pow zero (suc w) q h k =
    let one : q * 2 ^ 0 ≡ q = omega arith in
    let mask : 2 ^ suc w - 1 - 2 ^ 0 ≡ 2 ^ suc w - 2 ^ 1 = omega arith in
    rw (one, mask) (omega (arith, bit_and_high (suc w) 1 q (omega arith) (omega arith)))
bit_and-not_two_pow (suc o) (suc w) q h k =
    let left : q * 2 ^ suc o / 2 ≡ q * 2 ^ o = omega (arith, double o q) in
    let right : (2 ^ suc w - 1 - 2 ^ suc o) / 2 ≡ 2 ^ w - 1 - 2 ^ o =
      omega (arith, pow-suc 2 o, pow-suc 2 w, two_pow_lt o w (omega arith)) in
    omega (
      arith,
      bit_and_step (q * 2 ^ suc o) (2 ^ suc w - 1 - 2 ^ suc o),
      ap₂ bit_and left right,
      bit_and-not_two_pow o w q (omega arith) (omega (arith, double o q, pow-suc 2 w)),
      double o q,
      double o (q / 2 * 2),
      pow-suc 2 o,
      pow-suc 2 w,
    )

-- How often the block of 2 ^ o pages at `b` holds the page `p`.
abbrev pub in_block : ℕ → ℕ → ℕ → ℕ
in_block b o p = if leb b p && ltb p (b + 2 ^ o) then 1 else 0

-- The buddy of block number `q` of order `o` is its neighbour within the block of order `o + 1`.
pub buddy_pfn_lem : (o q : ℕ) → buddy_pfn (q * 2 ^ o) o ≡ (q / 2 * 2 + (q + 1) % 2) * 2 ^ o
unfolding buddy_pfn
buddy_pfn_lem o q = bit_xor-two_pow o q

pub combined_pfn_lem :
    (o q : ℕ) → o < 64 → q * 2 ^ o < 2 ^ 64 → combined_pfn (q * 2 ^ o) o ≡ q / 2 * 2 ^ suc o
unfolding combined_pfn
combined_pfn_lem o q h k = omega (
  arith,
  bit_and-not_two_pow o 64 q h k,
  double o (q / 2),
  ap (λ (x : ℕ). x * 2 ^ o) (mul_comm (q / 2) 2),
)

-- Two halves of a block.
pub join_halves : (b o p : ℕ) → in_block b o p + in_block (b + 2 ^ o) o p ≡ in_block b (suc o) p
join_halves b o p = ground (arith, pow-suc 2 o)

-- A block and its buddy are the two halves of the combined block.
pub halves_of_combined :
    (o q : ℕ)
    → o < 64
    → q * 2 ^ o < 2 ^ 64
    → let c = combined_pfn (q * 2 ^ o) o in
      ((q * 2 ^ o ≡ c) × (buddy_pfn (q * 2 ^ o) o ≡ c + 2 ^ o))
      ⊎ ((q * 2 ^ o ≡ c + 2 ^ o) × (buddy_pfn (q * 2 ^ o) o ≡ c))
halves_of_combined o q h k =
    let c = combined_pfn_lem o q h k in
    let b = buddy_pfn_lem o q in
    let d = double o (q / 2) in
    elim (dec_lt (q % 2) 1) [
      | yes even ↦ inl (
        omega (arith, c, d, ap (λ (x : ℕ). x * 2 ^ o) (even_parts q (omega arith))),
        omega (arith, c, b, d, ap (λ (x : ℕ). x * 2 ^ o) (even_buddy q (omega arith))),
      )
      | no odd ↦ inr (
        omega (arith, c, d, ap (λ (x : ℕ). x * 2 ^ o) (odd_parts q (omega arith))),
        omega (arith, c, b, d, ap (λ (x : ℕ). x * 2 ^ o) (odd_buddy q (omega arith))),
      )
    ]
  where
    even_parts : (q : ℕ) → q % 2 ≡ 0 → q ≡ 2 * (q / 2)
    even_parts q e = omega arith

    even_buddy : (q : ℕ) → q % 2 ≡ 0 → q / 2 * 2 + (q + 1) % 2 ≡ 2 * (q / 2) + 1
    even_buddy q e = omega arith

    odd_parts : (q : ℕ) → q % 2 ≡ 1 → q ≡ 2 * (q / 2) + 1
    odd_parts q e = omega arith

    odd_buddy : (q : ℕ) → q % 2 ≡ 1 → q / 2 * 2 + (q + 1) % 2 ≡ 2 * (q / 2)
    odd_buddy q e = omega arith

pub merge_blocks :
    (o q p : ℕ)
    → o < 64
    → q * 2 ^ o < 2 ^ 64
    → in_block (q * 2 ^ o) o p + in_block (buddy_pfn (q * 2 ^ o) o) o p
      ≡ in_block (combined_pfn (q * 2 ^ o) o) (suc o) p
merge_blocks o q p h k =
    let c = combined_pfn (q * 2 ^ o) o in
    elim (halves_of_combined o q h k) [
      | inl e ↦ rw (e.1) (
          subst (λ x. in_block x o p + in_block (c + 2 ^ o) o p ≡ in_block c (suc o) p) (sym e.0)
            (join_halves c o p))
      | inr e ↦ rw (e.1) (
          subst (λ x. in_block x o p + in_block c o p ≡ in_block c (suc o) p) (sym e.0)
            (add_comm (in_block (c + 2 ^ o) o p) (in_block c o p) ∙ join_halves c o p))
    ]

pub even_number : (q o : ℕ) → q * 2 ^ suc o ≡ 2 * q * 2 ^ o
even_number q o = omega (arith, ap (λ (p : ℕ). q * p) (pow-suc 2 o))

pub odd_number : (q o : ℕ) → q * 2 ^ suc o + 2 ^ o ≡ (2 * q + 1) * 2 ^ o
odd_number q o = omega (arith, ap (λ (p : ℕ). q * p) (pow-suc 2 o))
