-- ===== src/MemBitmap/FindRange.antt =====
-- The search for a run of free pages, and the allocation of one.
use ocean_linux.MemBitmap.Find.{free_at_beyond}
use ocean_linux.Base.BitArray.{test_bit}
use ocean_linux.MemBitmap.Range.{between, bitmap_set_range-Marked}
use ocean_linux.MemBitmap.Invariant.{
  IsValid, free_at, limit-eq, bitmap_test_bit-test_bit, offset_inside, mem_bitmap_is_usable-free_at,
}
use ocean_linux.Base.{
  ℕ, true, false, ◌+◌, Option, ◌≤◌, ◌≡◌, some, ◌<◌, none, arith, ◌≢◌, ℕ_discrete, not, suc,
  if◌then◌else◌, ◌==◌, refl, ap, Bool-cases, inr, dec_lt, inl, leb, zero, ◌∙◌,
}
use ocean_linux.MemBitmap.{
  MemBitmap, find_range_from, bitmap_find_free_range, bitmap_test_bit, mem_bitmap_is_usable,
  mem_bitmap_alloc_pages, bitmap_set_range,
}

-- A page in use among the `nr` pages from `w` on.
abbrev pub Broken : MemBitmap → ℕ → ℕ → Type 0
Broken m nr w = (q : ℕ) × (w ≤ q) × (q < w + nr) × (free_at m q ≡ false)

-- The lowest run of `nr` free pages between `lo` and `hi`, or none.
abbrev pub FirstRun : MemBitmap → ℕ → ℕ → ℕ → Option ℕ → Type 0
FirstRun m nr lo hi none = (w : ℕ) → lo ≤ w → w + nr ≤ hi → Broken m nr w
FirstRun m nr lo hi (some p) =
    (lo ≤ p)
    × (p + nr ≤ hi)
    × ((q : ℕ) → p ≤ q → q < p + nr → free_at m q ≡ true)
    × ((w : ℕ) → lo ≤ w → w < p → Broken m nr w)

-- The loop has reached `pfn`: the run that it counts began at `start`, and no run began before.
record Counting (m : MemBitmap) (nr pfn count range_start start : ℕ) : Type 0 where
  length_so_far : start + count ≡ pfn
  above : m.base_pfn ≤ start
  short : count < nr
  remembered : count ≢ 0 → range_start ≡ start
  run : (q : ℕ) → start ≤ q → q < pfn → free_at m q ≡ true
  before : (w : ℕ) → m.base_pfn ≤ w → w < start → Broken m nr w

module _ {m : MemBitmap} (v : IsValid m) (nr : ℕ) where
  test_iff :
      (pfn : ℕ)
      → m.base_pfn ≤ pfn
      → pfn < m.base_pfn + m.nr_bits
      → bitmap_test_bit m pfn ≡ not (free_at m pfn)
  unfolding free_at
  test_iff pfn lo hi =
      ground
        (arith, bitmap_test_bit-test_bit m pfn, ap (test_bit m.bits) (offset_inside v pfn lo hi))

  extend_run :
      (pfn start : ℕ)
      → free_at m pfn ≡ true
      → ((q : ℕ) → start ≤ q → q < pfn → free_at m q ≡ true)
      → (q : ℕ) → start ≤ q
      → q < pfn + 1
      → free_at m q ≡ true
  extend_run pfn start free run q h k = elim (ℕ_discrete q pfn) [
    | yes same ↦ rw same free
    | no other ↦ run q h (omega arith)
  ]

  find_range_from-FirstRun :
      (n pfn count range_start start : ℕ)
      → pfn + n ≡ m.base_pfn + m.nr_bits
      → Counting m nr pfn count range_start start
      → FirstRun m nr m.base_pfn
          (m.base_pfn + m.nr_bits)
          (find_range_from m nr n pfn count range_start)
  unfolding find_range_from
  find_range_from-FirstRun zero pfn count range_start start e c =
      λ w h k. c.before w h (omega (arith, c.length_so_far, c.short))
  find_range_from-FirstRun (suc n) pfn count range_start start e c =
      let test = test_iff pfn (omega (arith, c.length_so_far, c.above)) (omega arith) in
      let begun : (if count == 0 then pfn else range_start) ≡ start =
        ground (arith, c.length_so_far, c.remembered) in
      elim (Bool-cases (free_at m pfn)) [
        | inr used ↦
            rw (find_range_from, test, used)
              (find_range_from-FirstRun n (suc pfn) 0 range_start (suc pfn) (omega arith) (record {
                length_so_far = omega arith;
                above = omega (arith, c.length_so_far, c.above);
                short = omega (arith, c.short);
                remembered = λ h. absurd (h refl);
                run = λ q h k. absurd (omega arith);
                before = λ w h k. elim (dec_lt w start) [
                  | yes early ↦ c.before w h early
                  | no late ↦ (pfn, omega arith, omega (arith, c.length_so_far, c.short), used)
                ];
              }))
        | inl free ↦
            let run = extend_run pfn start free c.run in
            elim (Bool-cases (leb nr (count + 1))) [
              | inl long ↦
                  rw (find_range_from, test, free, long, begun)
                    (
                      c.above,
                      ground (arith, c.length_so_far, c.short),
                      λ q h k. run q h (ground (arith, c.length_so_far, c.short)),
                      c.before,
                    )
              | inr more ↦
                  rw (find_range_from, test, free, more, begun)
                    (find_range_from-FirstRun n (suc pfn) (count + 1) start start (omega arith)
                      (record {
                        length_so_far = omega (arith, c.length_so_far);
                        above = c.above;
                        short = ground arith;
                        remembered = λ h. refl;
                        run = λ q h k. run q h (omega arith);
                        before = c.before;
                      }))
            ]
      ]

  bitmap_find_free_range-FirstRun :
      0 < nr → FirstRun m nr m.base_pfn (m.base_pfn + m.nr_bits) (bitmap_find_free_range m nr)
  unfolding bitmap_find_free_range
  bitmap_find_free_range-FirstRun pos =
      find_range_from-FirstRun _ m.base_pfn 0 0 m.base_pfn (omega (arith, limit-eq v)) (record {
        length_so_far = omega arith;
        above = omega arith;
        short = pos;
        remembered = λ h. absurd (h refl);
        run = λ q h k. absurd (omega arith);
        before = λ w h k. absurd (omega arith);
      })

-- What an allocation of `nr` pages does: either no run of `nr` usable pages exists and nothing
-- changes, or the lowest such run is taken and no other page changes.
abbrev pub AllocatesRun : MemBitmap → ℕ → MemBitmap → Option ℕ → Type 0
AllocatesRun m nr after none =
    (after ≡ m)
    × ((w : ℕ)
        → m.base_pfn ≤ w
        → w + nr ≤ m.base_pfn + m.nr_bits
        → (q : ℕ) × (w ≤ q) × (q < w + nr) × (mem_bitmap_is_usable m q ≡ false))
AllocatesRun m nr after (some p) =
    IsValid after
    × ((q : ℕ) → p ≤ q → q < p + nr → mem_bitmap_is_usable m q ≡ true)
    × ((w : ℕ)
        → m.base_pfn ≤ w
        → w < p
        → (q : ℕ) × (w ≤ q) × (q < w + nr) × (mem_bitmap_is_usable m q ≡ false))
    × ((q : ℕ)
        → mem_bitmap_is_usable after q
          ≡ (if between p (p + nr) q then false else mem_bitmap_is_usable m q))

Broken-usable :
    {m : MemBitmap} (nr w : ℕ)
    → IsValid m
    → Broken m nr w
    → (q : ℕ) × (w ≤ q) × (q < w + nr) × (mem_bitmap_is_usable m q ≡ false)
Broken-usable nr w v b = (b.0, b.1, b.2, mem_bitmap_is_usable-free_at v b.0 ∙ b.3)

-- With no run of `nr` usable pages mem_bitmap_alloc_pages fails and changes nothing; otherwise it
-- takes the lowest such run, keeps the bitmap valid, and changes no other page.
pub mem_bitmap_alloc_pages_lem :
    {m : MemBitmap} (nr : ℕ)
    → IsValid m
    → 0 < nr
    → AllocatesRun m nr (mem_bitmap_alloc_pages m nr).0 (mem_bitmap_alloc_pages m nr).1
unfolding mem_bitmap_alloc_pages
mem_bitmap_alloc_pages_lem {m} nr v pos =
    take_run (bitmap_find_free_range m nr) (bitmap_find_free_range-FirstRun v nr pos)
  where
    take_run :
        (r : Option ℕ)
        → FirstRun m nr m.base_pfn (m.base_pfn + m.nr_bits) r
        → let (after, result) = elim r as (λ _. MemBitmap × Option ℕ) [
          | none ↦ (m, none)
          | some p ↦ (bitmap_set_range m p nr, some p)
        ] in
          AllocatesRun m nr after result
    take_run none f = (refl, λ w h k. Broken-usable nr w v (f w h k))
    take_run (some p) f =
        let marked = bitmap_set_range-Marked v p nr (omega (arith, f.1, v.enough, v.no_wrap)) in
        (
          marked.valid,
          λ q h k. mem_bitmap_is_usable-free_at v q ∙ f.2 q h k,
          λ w h k. Broken-usable nr w v (f.3 w h k),
          λ q. ground (
            arith,
            mem_bitmap_is_usable-free_at v q,
            mem_bitmap_is_usable-free_at marked.valid q,
            marked.pages q,
            free_at_beyond v q,
          ),
        )
