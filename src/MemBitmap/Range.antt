-- ===== src/MemBitmap/Range.antt =====
-- The loops that set and clear a range of pages.
use ocean_linux.MemBitmap.Invariant.{
  IsValid, free_at, limit-eq, bitmap_set_bit-IsValid, bitmap_clear_bit-IsValid, free_at-set_bit,
  free_at-clear_bit,
}
use native.Mathlib.Nat.{add-zero}
use ocean_linux.Base.{
  ℕ, Bool, true, false, leb, ◌≤◌, ◌+◌, ◌∙◌, arith, ◌≡◌, if◌then◌else◌, ◌&&◌, ltb, subst, suc,
  Bool-cases, inr, inl, ◌<◌, zero, refl,
}
use ocean_linux.MemBitmap.{
  MemBitmap, set_from, covered, bitmap_set_bit, bitmap_clear_bit, bitmap_set_range, clear_from,
  bitmap_clear_range, word_mod,
}

-- Whether the bitmap covers a page.
abbrev pub inside : MemBitmap → ℕ → Bool
inside m q = leb m.base_pfn q && ltb q (m.base_pfn + m.nr_bits)

abbrev pub between : ℕ → ℕ → ℕ → Bool
between lo hi q = leb lo q && ltb q hi

-- The pages from `lo` up to `hi` that the bitmap covers now read `value`; all others read as
-- before.
pub record Marked (value : Bool) (m after : MemBitmap) (lo hi : ℕ) : Type 0 where
  pub valid : IsValid after
  pub base_same : after.base_pfn ≡ m.base_pfn
  pub size_same : after.nr_bits ≡ m.nr_bits
  pub pages :
      (q : ℕ) → free_at after q ≡ (if between lo hi q && inside m q then value else free_at m q)

one_page_set :
    {m : MemBitmap}
    → IsValid m
    → (pfn : ℕ) → Marked false m (if covered m pfn then bitmap_set_bit m pfn else m) pfn (pfn + 1)
one_page_set {m} v pfn = elim (Bool-cases (covered m pfn)) [
  | inr out ↦ rw out (record {
    valid = v;
    base_same = refl;
    size_same = refl;
    pages = λ q. ground (arith, limit-eq v);
  })
  | inl in_range ↦
      let lo : m.base_pfn ≤ pfn = ground arith in
      let hi : pfn < m.base_pfn + m.nr_bits = ground (arith, limit-eq v) in
      rw in_range (record {
        valid = bitmap_set_bit-IsValid v pfn lo hi;
        base_same = unfold bitmap_set_bit in refl;
        size_same = unfold bitmap_set_bit in refl;
        pages = λ q. ground (arith, free_at-set_bit v pfn lo hi q);
      })
]

one_page_clear :
    {m : MemBitmap}
    → IsValid m
    → (pfn : ℕ) → Marked true m (if covered m pfn then bitmap_clear_bit m pfn else m) pfn (pfn + 1)
one_page_clear {m} v pfn = elim (Bool-cases (covered m pfn)) [
  | inr out ↦ rw out (record {
    valid = v;
    base_same = refl;
    size_same = refl;
    pages = λ q. ground (arith, limit-eq v);
  })
  | inl in_range ↦
      let lo : m.base_pfn ≤ pfn = ground arith in
      let hi : pfn < m.base_pfn + m.nr_bits = ground (arith, limit-eq v) in
      rw in_range (record {
        valid = bitmap_clear_bit-IsValid v pfn lo hi;
        base_same = unfold bitmap_clear_bit in refl;
        size_same = unfold bitmap_clear_bit in refl;
        pages = λ q. ground (arith, free_at-clear_bit v pfn lo hi q);
      })
]

Marked-refl : (value : Bool) {m : MemBitmap} → IsValid m → (lo : ℕ) → Marked value m m lo lo
Marked-refl value v lo = record {
  valid = v;
  base_same = refl;
  size_same = refl;
  pages = λ q. ground arith;
}

Marked-trans :
    {value : Bool} {m between_state after : MemBitmap} {lo mid hi : ℕ}
    → Marked value m between_state lo mid
    → Marked value between_state after mid hi
    → lo ≤ mid
    → mid ≤ hi
    → Marked value m after lo hi
Marked-trans first second h k = record {
  valid = second.valid;
  base_same = second.base_same ∙ first.base_same;
  size_same = second.size_same ∙ first.size_same;
  pages = λ q. ground (arith, first.base_same, first.size_same, first.pages q, second.pages q);
}

pub set_from-Marked :
    (n pfn hi : ℕ) (m : MemBitmap)
    → IsValid m
    → hi ≡ pfn + n
    → Marked false m (set_from n pfn m) pfn hi
unfolding set_from
set_from-Marked zero pfn hi m v e = rw (e, add-zero pfn) (Marked-refl false v pfn)
set_from-Marked (suc n) pfn hi m v e =
    let first = one_page_set v pfn in
    let next = (if covered m pfn then bitmap_set_bit m pfn else m) in
    Marked-trans first
      (subst (λ k. Marked false next (set_from n (suc pfn) next) k hi) (omega arith)
        (set_from-Marked n (suc pfn) hi next first.valid (omega arith)))
      (omega arith) (omega arith)

pub clear_from-Marked :
    (n pfn hi : ℕ) (m : MemBitmap)
    → IsValid m
    → hi ≡ pfn + n
    → Marked true m (clear_from n pfn m) pfn hi
unfolding clear_from
clear_from-Marked zero pfn hi m v e = rw (e, add-zero pfn) (Marked-refl true v pfn)
clear_from-Marked (suc n) pfn hi m v e =
    let first = one_page_clear v pfn in
    let next = (if covered m pfn then bitmap_clear_bit m pfn else m) in
    Marked-trans first
      (subst (λ k. Marked true next (clear_from n (suc pfn) next) k hi) (omega arith)
        (clear_from-Marked n (suc pfn) hi next first.valid (omega arith)))
      (omega arith) (omega arith)

-- bitmap_set_range marks exactly the pages of the range that the bitmap covers.
pub bitmap_set_range-Marked :
    {m : MemBitmap}
    → IsValid m
    → (start nr : ℕ) → start + nr < word_mod
    → Marked false m (bitmap_set_range m start nr) start (start + nr)
unfolding bitmap_set_range
bitmap_set_range-Marked {m} v start nr h = set_from-Marked _ start (start + nr) m v (omega arith)

-- bitmap_clear_range marks exactly the pages of the range that the bitmap covers.
pub bitmap_clear_range-Marked :
    {m : MemBitmap}
    → IsValid m
    → (start nr : ℕ) → start + nr < word_mod
    → Marked true m (bitmap_clear_range m start nr) start (start + nr)
unfolding bitmap_clear_range
bitmap_clear_range-Marked {m} v start nr h =
    clear_from-Marked _ start (start + nr) m v (omega arith)
