-- ===== src/Libc/Blocks.antt =====
-- The payloads in use of a list of blocks, and its size.
use ocean_linux.Libc.Heap.{trim, split_block, Block, claim, header_size, libc_heap_align}
use ocean_linux.Base.{
  ℕ, List, ◌≡◌, ◌<◌, Option, if◌then◌else◌, ◌∷◌, ◌+◌, Bool-cases, ◌==◌, false, leb, none, [], some,
  arith, inr, refl, inl, ◌-◌, leb→le, ℕ_discrete, ◌≤◌, true, some_injective, dec_lt, sym, ◌∙◌,
}

-- The size of the payload in use at `p`, where the first block starts at `at`.
abbrev pub used_at : ℕ → List Block → ℕ → Option ℕ
used_at at [] p = none
used_at at (b ∷ bs) p =
    if p == at + header_size
    then if b.free then none else some b.size
    else used_at (at + header_size + b.size) bs p

-- The size of all blocks with their headers.
abbrev pub total_size : List Block → ℕ
total_size [] = 0
total_size (b ∷ bs) = header_size + b.size + total_size bs

-- The first payload is behind the first header.
pub used_at-below :
    (at : ℕ) (bs : List Block) (p : ℕ) → p < at + header_size → used_at at bs p ≡ none
used_at-below at [] p low = refl
used_at-below at (b ∷ bs) p low =
    rw (used_at-below (at + header_size + b.size) bs p (omega (arith, low))) (ground (arith, low))

abbrev pub trimmed : Block → ℕ → ℕ
trimmed b aligned = if leb (aligned + header_size + libc_heap_align) b.size then aligned else b.size

-- A block that is split leaves a free block behind it, which has no payload in use.
pub trim-used_at :
    (b : Block) (aligned at : ℕ) (bs : List Block) (p : ℕ)
    → used_at at (trim b aligned bs) p ≡ (
        if p == at + header_size
        then if b.free then none else some (trimmed b aligned)
        else used_at (at + header_size + b.size) bs p)
unfolding trim split_block
trim-used_at b aligned at bs p =
    elim (Bool-cases (leb (aligned + header_size + libc_heap_align) b.size)) [
      | inr tight ↦ rw (tight, trim) refl
      | inl roomy ↦
          let e : at + header_size + aligned + header_size + (b.size - aligned - header_size)
              ≡ at + header_size + b.size =
            omega (arith, leb→le (aligned + header_size + libc_heap_align) b.size roomy) in
          let none_there : p ≡ at + header_size + aligned + header_size
              → used_at (at + header_size + b.size) bs p ≡ none =
            λ q.
              used_at-below (at + header_size + b.size) bs p
                (omega (arith, q, leb→le (aligned + header_size + libc_heap_align) b.size roomy)) in
          rw (roomy, trim, e)
            (elim (ℕ_discrete p (at + header_size + aligned + header_size)) [
              | yes q ↦ rw (none_there q) (ground (arith, q))
              | no q ↦ ground (arith, q)
            ])
    ]

pub trim-total_size :
    (b : Block) (aligned : ℕ) (bs : List Block)
    → total_size (trim b aligned bs) ≡ total_size (b ∷ bs)
unfolding trim split_block
trim-total_size b aligned bs =
    elim (Bool-cases (leb (aligned + header_size + libc_heap_align) b.size)) [
      | inr tight ↦ rw (tight, trim) refl
      | inl roomy ↦
          rw (roomy, trim)
            (omega (arith, leb→le (aligned + header_size + libc_heap_align) b.size roomy))
    ]

pub claim-trim :
    (b : Block) (aligned : ℕ) (bs : List Block)
    → claim (trim b aligned bs) ≡ trim (record b { free = false }) aligned bs
unfolding trim split_block
claim-trim b aligned bs = ground arith

pub trimmed-large : (b : Block) (aligned : ℕ) → aligned ≤ b.size → aligned ≤ trimmed b aligned
trimmed-large b aligned fits = ground (arith, fits)

-- A free block behind `size` bytes can be counted to them.
pub skip_free :
    (at size : ℕ) (next : Block) (rest : List Block) (q : ℕ)
    → next.free ≡ true
    → used_at (at + header_size + (size + (header_size + next.size))) rest q
      ≡ used_at (at + header_size + size) (next ∷ rest) q
skip_free at size next rest q free =
    let e : at + header_size + (size + (header_size + next.size))
        ≡ at + header_size + size + header_size + next.size =
      omega arith in
    elim (ℕ_discrete q (at + header_size + size + header_size)) [
      | yes there ↦
          let none_there : used_at (at + header_size + size + header_size + next.size) rest q
              ≡ none =
            used_at-below (at + header_size + size + header_size + next.size) rest q
              (omega (arith, there)) in
          rw (e, free, none_there) (ground arith)
      | no other ↦ rw (e, free) (ground (arith, other))
    ]

-- Where a payload is in use it lies behind the first header.
pub used_at-behind :
    (at : ℕ) (bs : List Block) (p : ℕ) {n : ℕ} → used_at at bs p ≡ some n → at + header_size ≤ p
used_at-behind at bs p {n} h = elim (dec_lt p (at + header_size)) [
  | yes low ↦ absurd (clash (sym (used_at-below at bs p low) ∙ h))
  | no high ↦ omega (arith, high)
]
  where
    clash : none ≡ some n → ⊥
    clash q = cc

-- The block of the payload `p` is the first one.
pub first_used :
    (at : ℕ) (b : Block) (bs : List Block) (p : ℕ) {n : ℕ}
    → p ≡ at + header_size
    → used_at at (b ∷ bs) p ≡ some n
    → (b.free ≡ false) × (b.size ≡ n)
first_used at b bs p {n} here h = elim (Bool-cases b.free) [
  | inl free ↦ absurd (clash (ground (arith, here, free, h)))
  | inr in_use ↦ (in_use, some_injective (sym (rw (here, in_use) (ground arith)) ∙ h))
]
  where
    clash : none ≡ some n → ⊥
    clash q = cc

-- Two payloads in use do not overlap.
pub used_at-apart :
    (at : ℕ) (bs : List Block) (p q : ℕ) {n k : ℕ}
    → used_at at bs p ≡ some n
    → used_at at bs q ≡ some k
    → p < q
    → p + n ≤ q
used_at-apart at [] p q hp hq less = cc
used_at-apart at (b ∷ bs) p q {n} {k} hp hq less = elim (ℕ_discrete p (at + header_size)) [
  | yes here ↦
      let size = (first_used at b bs p here hp).1 in
      let later : used_at (at + header_size + b.size) bs q ≡ some k =
        ground (arith, here, less, hq) in
      omega (arith, here, size, used_at-behind (at + header_size + b.size) bs q later)
  | no elsewhere ↦
      let later : used_at (at + header_size + b.size) bs p ≡ some n =
        ground (arith, elsewhere, hp) in
      let behind = used_at-behind (at + header_size + b.size) bs p later in
      let later' : used_at (at + header_size + b.size) bs q ≡ some k =
        ground (arith, behind, less, hq) in
      used_at-apart (at + header_size + b.size) bs p q later later' less
]
