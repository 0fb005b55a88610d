-- ===== src/MemBitmap/Find.antt =====
-- The search for one free page, and the allocation of a page.
use ocean_linux.MemBitmap.Range.{inside}
use ocean_linux.Base.Bits.{bit-bit_not, bit-zero}
use ocean_linux.Base.BitArray.{test_bit, test_bit-bit}
use ocean_linux.MemBitmap.Invariant.{
  free_at, IsValid, limit-eq, mem_bitmap_is_usable-free_at, bitmap_set_bit-IsValid, free_at-set_bit,
}
use ocean_linux.Base.{
  ℕ, true, false, Option, ◌≤◌, ◌<◌, ◌≡◌, ◌+◌, dec_lt, ◌*◌, some, arith, none, ◌%◌, bit_and, get_or,
  ◌^◌, ◌==◌, ◌&&◌, ltb, ◌-◌, suc, ◌/◌, Bool-cases, inl, inr, subst, zero, ◌∙◌, ap, not, refl,
  if◌then◌else◌,
}
use ocean_linux.MemBitmap.{
  MemBitmap, word_mod, limit_pfn, find_in_word, find_free_from, mem_bitmap_is_usable,
  bitmap_set_bit, bitmap_find_free, mem_bitmap_alloc_page,
}

-- The first free page from `lo` up to `hi`, or none.
abbrev pub First : MemBitmap → ℕ → ℕ → Option ℕ → Type 0
First m lo hi none = (q : ℕ) → lo ≤ q → q < hi → free_at m q ≡ false
First m lo hi (some p) =
    (lo ≤ p) × (p < hi) × (free_at m p ≡ true) × ((q : ℕ) → lo ≤ q → q < p → free_at m q ≡ false)

pass_used :
    (m : MemBitmap) (lo mid hi : ℕ) (r : Option ℕ)
    → ((q : ℕ) → lo ≤ q → q < mid → free_at m q ≡ false)
    → lo ≤ mid
    → First m mid hi r
    → First m lo hi r
pass_used m lo mid hi none used l f =
    λ q p k. elim (dec_lt q mid) [ yes before ↦ used q p before | no after ↦ f q (omega arith) k ]
pass_used m lo mid hi (some p) used l f = (
  omega (arith, f.0),
  f.1,
  f.2,
  λ q u k. elim (dec_lt q mid) [ yes before ↦ used q u before | no after ↦ f.3 q (omega arith) k ],
)

-- Two searches one after the other.
First-append :
    (m : MemBitmap) (lo mid hi : ℕ) (r later : Option ℕ)
    → lo ≤ mid
    → mid ≤ hi
    → First m lo mid r
    → First m mid hi later
    → First m lo hi (elim r [ some pfn ↦ some pfn | none ↦ later ])
First-append m lo mid hi none later l k f g = pass_used m lo mid hi later f l g
First-append m lo mid hi (some p) later l k f g = (f.0, omega (arith, f.1), f.2, f.3)

-- The test that the loop makes on bit `j` of word `i`.
found_iff :
    {m : MemBitmap}
    → IsValid m
    → (i j : ℕ) → i < m.nr_words
    → j < 64
    → let pfn = (m.base_pfn + i * 64 + j) % word_mod in
      (bit_and (get_or m.bits i 0) (2 ^ j) == 0 && ltb pfn (limit_pfn m))
      ≡ free_at m (m.base_pfn + i * 64 + j)
unfolding free_at test_bit
found_iff {m} v i j h k =
    let word : (m.base_pfn + i * 64 + j - m.base_pfn) / 64 ≡ i = omega arith in
    let place : (m.base_pfn + i * 64 + j - m.base_pfn) % 64 ≡ j = omega arith in
    let small : (m.base_pfn + i * 64 + j) % word_mod ≡ m.base_pfn + i * 64 + j =
      omega (arith, v.no_wrap) in
    rw (word, place, small, limit-eq v) (ground arith)

module _ {m : MemBitmap} (v : IsValid m) where
  find_in_word-First :
      (i n j : ℕ)
      → i < m.nr_words
      → j + n ≡ 64
      → First m (m.base_pfn + i * 64 + j) (m.base_pfn + i * 64 + 64) (find_in_word m i n j)
  unfolding find_in_word
  find_in_word-First i zero j h e = λ q p k. absurd (omega arith)
  find_in_word-First i (suc n) j h e =
      let test = found_iff v i j h (omega arith) in
      let small : (m.base_pfn + i * 64 + j) % word_mod ≡ m.base_pfn + i * 64 + j =
        omega (arith, v.no_wrap) in
      elim (Bool-cases (free_at m (m.base_pfn + i * 64 + j))) [
        | inl free ↦
            rw (find_in_word, test, free, small)
              (omega arith, omega arith, free, λ q p k. absurd (omega arith))
        | inr used ↦
            rw (find_in_word, test, used)
              (pass_used m _ (m.base_pfn + i * 64 + suc j) _ (find_in_word m i n (suc j))
                (λ q p k. subst (λ x. free_at m x ≡ false) (omega arith) used) (omega arith)
                (find_in_word-First i n (suc j) h (omega arith)))
      ]

  -- A word of 64 ones holds no free page.
  full_word :
      (i q : ℕ)
      → get_or m.bits i 0 ≡ word_mod - 1
      → m.base_pfn + i * 64 ≤ q
      → q < m.base_pfn + i * 64 + 64
      → free_at m q ≡ false
  unfolding free_at
  full_word i q e h k =
      let word : (q - m.base_pfn) / 64 ≡ i = omega arith in
      let place : (q - m.base_pfn) % 64 < 64 = omega arith in
      let bits = bit-bit_not 64 0 ((q - m.base_pfn) % 64) (omega arith) place in
      let all_set : test_bit m.bits (q - m.base_pfn) ≡ true =
        rw (test_bit-bit, word, e) (bits ∙ ap not (bit-zero ((q - m.base_pfn) % 64))) in
      ground arith

  find_free_from-First :
      (n i : ℕ)
      → i + n ≡ m.nr_words
      → First m (m.base_pfn + i * 64) (m.base_pfn + m.nr_words * 64) (find_free_from m n i)
  unfolding find_free_from
  find_free_from-First zero i e = λ q p k. absurd (omega arith)
  find_free_from-First (suc n) i e =
      let lo = m.base_pfn + i * 64 in
      let mid = m.base_pfn + suc i * 64 in
      let hi = m.base_pfn + m.nr_words * 64 in
      let ends : lo + 64 ≡ mid = omega arith in
      let first : First m lo mid (find_in_word m i 64 0) =
        subst (λ x. First m lo x (find_in_word m i 64 0)) ends
          (subst (λ x. First m x (lo + 64) (find_in_word m i 64 0)) (omega arith)
            (find_in_word-First i 64 0 (omega arith) refl)) in
      let rest : First m mid hi (find_free_from m n (suc i)) =
        find_free_from-First n (suc i) (omega arith) in
      elim (Bool-cases (get_or m.bits i 0 == word_mod - 1)) [
        | inl full ↦
            rw (find_free_from, full)
              (pass_used m lo mid hi _ (λ q p k. full_word i q (ground arith) p (omega arith))
                (omega arith) rest)
        | inr some_clear ↦
            rw (find_free_from, some_clear)
              (First-append m lo mid hi (find_in_word m i 64 0) (find_free_from m n (suc i))
                (omega arith) (omega arith) first rest)
      ]

  pub free_at_beyond : (q : ℕ) → (inside m q ≡ false) → free_at m q ≡ false
  unfolding free_at
  free_at_beyond q e = ground arith

  bitmap_find_free-First : First m m.base_pfn (m.base_pfn + m.nr_words * 64) (bitmap_find_free m)
  unfolding bitmap_find_free
  bitmap_find_free-First =
      subst (λ x. First m x (m.base_pfn + m.nr_words * 64) (find_free_from m m.nr_words 0))
        (omega arith) (find_free_from-First m.nr_words 0 (omega arith))

-- What mem_bitmap_alloc_page does: with no usable page it fails and changes nothing; otherwise it
-- takes the lowest usable page, keeps the bitmap valid, and changes no other page.
abbrev pub Allocates : MemBitmap → MemBitmap → Option ℕ → Type 0
Allocates m after none = (after ≡ m) × ((q : ℕ) → mem_bitmap_is_usable m q ≡ false)
Allocates m after (some p) =
    IsValid after
    × (mem_bitmap_is_usable m p ≡ true)
    × ((q : ℕ) → q < p → mem_bitmap_is_usable m q ≡ false)
    × ((q : ℕ)
        → mem_bitmap_is_usable after q ≡ (if p == q then false else mem_bitmap_is_usable m q))

take-First :
    {m : MemBitmap}
    → IsValid m
    → (r : Option ℕ) → First m m.base_pfn (m.base_pfn + m.nr_words * 64) r
    → let (after, result) = elim r as (λ _. MemBitmap × Option ℕ) [
      | none ↦ (m, none)
      | some p ↦ (bitmap_set_bit m p, some p)
    ] in
      Allocates m after result
take-First {m} v none f = (
  refl,
  λ q. elim (Bool-cases (inside m q)) [
    | inl here ↦ mem_bitmap_is_usable-free_at v q ∙ f q (ground arith) (ground (arith, v.enough))
    | inr beyond ↦ mem_bitmap_is_usable-free_at v q ∙ free_at_beyond v q beyond
  ],
)
take-First {m} v (some p) f =
    let here : inside m p ≡ true = ground (arith, f.2, free_at_beyond v p) in
    let lo : m.base_pfn ≤ p = ground arith in
    let hi : p < m.base_pfn + m.nr_bits = ground arith in
    let after = bitmap_set_bit-IsValid v p lo hi in
    (
      after,
      mem_bitmap_is_usable-free_at v p ∙ f.2,
      λ q k. mem_bitmap_is_usable-free_at v q ∙ elim (dec_lt q m.base_pfn) [
        | yes below ↦ free_at_beyond v q (ground arith)
        | no above ↦ f.3 q (omega arith) k
      ],
      λ q. ground (
        arith,
        mem_bitmap_is_usable-free_at v q,
        mem_bitmap_is_usable-free_at after q,
        free_at-set_bit v p lo hi q,
      ),
    )

-- With no usable page mem_bitmap_alloc_page fails and changes nothing; otherwise it takes the
-- lowest usable page, keeps the bitmap valid, and changes no other page.
pub mem_bitmap_alloc_page_lem :
    {m : MemBitmap}
    → IsValid m
    → Allocates m (mem_bitmap_alloc_page m).0 (mem_bitmap_alloc_page m).1
unfolding mem_bitmap_alloc_page
mem_bitmap_alloc_page_lem {m} v = take-First v (bitmap_find_free m) (bitmap_find_free-First v)
