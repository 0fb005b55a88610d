-- ===== src/Capability/Slots.antt =====
-- The slots of one capability space: how many are in use, and the search for a free one.
use ocean_linux.Base.{
  ℕ, zero, suc, ◌+◌, ◌≤◌, ◌<◌, ◌≡◌, refl, inl, inr, Bool, true, false, not, Option, none, some,
  List, [], ◌∷◌, if◌then◌else◌, ◌==◌, arith, Bool-cases, length, get_or, set, ℕ_discrete,
}
use ocean_linux.Base.BitArray.{test_bit}
use ocean_linux.Capability.{Capability, empty_cap, type_none, find_free_from}

-- Whether a slot holds a capability.
abbrev pub occupied : Capability → Bool
occupied cap = not (cap.type == type_none)

abbrev pub weight : Capability → ℕ
weight cap = if occupied cap then 1 else 0

-- How many slots hold a capability.
unfoldable pub count : List Capability → ℕ
count [] = 0
count (cap ∷ caps) = weight cap + count caps

pub count-le-length : (caps : List Capability) → count caps ≤ length caps
unfolding count
count-le-length [] = omega arith
count-le-length (cap ∷ caps) = ground (arith, count-le-length caps)

pub count-set :
    (caps : List Capability) (i : ℕ) (cap : Capability)
    → i < length caps
    → count (set caps i cap) + weight (get_or caps i empty_cap) ≡ count caps + weight cap
unfolding count
count-set [] i cap h = elim h [ ]
count-set (c ∷ caps) zero cap h = omega arith
count-set (c ∷ caps) (suc i) cap h = omega (arith, count-set caps i cap (omega arith))

-- Every slot is in use exactly when the count is the number of slots.
pub full-count :
    (caps : List Capability)
    → ((i : ℕ) → i < length caps → occupied (get_or caps i empty_cap) ≡ true)
    → count caps ≡ length caps
unfolding count
full-count [] h = refl
full-count (cap ∷ caps) h =
    ground (arith, h 0 (omega arith), full-count caps (λ i k. h (suc i) (omega arith)))

pub count-lt :
    (caps : List Capability) (i : ℕ)
    → i < length caps
    → occupied (get_or caps i empty_cap) ≡ false
    → count caps < length caps
unfolding count
count-lt [] i h e = elim h [ ]
count-lt (cap ∷ caps) zero h e = ground (arith, count-le-length caps)
count-lt (cap ∷ caps) (suc i) h e = ground (arith, count-lt caps i)

-- What the loop of cspace_find_free_slot returns when it starts at `i` with `n` rounds left: the
-- first clear bit, or nothing where all are set.
abbrev pub Finds : List ℕ → ℕ → ℕ → Option ℕ → Type 0
Finds bitmap i n none = (k : ℕ) → i ≤ k → k < i + n → test_bit bitmap k ≡ true
Finds bitmap i n (some k) =
    (i ≤ k)
    × (k < i + n)
    × (test_bit bitmap k ≡ false)
    × ((j : ℕ) → i ≤ j → j < k → test_bit bitmap j ≡ true)

module _ (bitmap : List ℕ) (i : ℕ) (taken : test_bit bitmap i ≡ true) where
  -- Bits that are set from `i + 1` on are set from `i` on.
  set_from :
      (m : ℕ)
      → ((k : ℕ) → suc i ≤ k → k < m → test_bit bitmap k ≡ true)
      → (k : ℕ) → i ≤ k
      → k < m
      → test_bit bitmap k ≡ true
  set_from m above k p q = elim (ℕ_discrete i k) [
    | yes same ↦ rw (← same) taken
    | no other ↦ above k (omega arith) q
  ]

  pass_taken : (n : ℕ) (r : Option ℕ) → Finds bitmap (suc i) n r → Finds bitmap i (suc n) r
  pass_taken n none f = λ k p q. set_from (suc i + n) f k p (omega arith)
  pass_taken n (some k) f = (omega arith, omega arith, f.2, set_from k f.3)

pub find_free_from-Finds :
    (n i : ℕ) (bitmap : List ℕ) → Finds bitmap i n (find_free_from n i bitmap)
unfolding find_free_from
find_free_from-Finds zero i bitmap = λ k p q. absurd (omega arith)
find_free_from-Finds (suc n) i bitmap = elim (Bool-cases (test_bit bitmap i)) [
  | inl taken ↦ rw taken (pass_taken bitmap i taken n _ (find_free_from-Finds n (suc i) bitmap))
  | inr free ↦ rw free (omega arith, omega arith, free, λ j p q. absurd (omega arith))
]
