-- ===== src/Buddy/Alloc.antt =====
-- Allocation: the block that the search finds, and what the free lists lose.
use ocean_linux.Base.Bits.{two_pow_mono, two_pow_lt}
use ocean_linux.Buddy.Expand.{Expanded, lower_half, expand_loop-Expanded}
use ocean_linux.Buddy.Moves.{counters-IsValid, cover-remove, remove-IsValid, remove-Uncovered}
use ocean_linux.Buddy.Split.{in_block}
use ocean_linux.Buddy.Invariant.{IsValid, Placed, blocks}
use ocean_linux.Buddy.Cover.{listed, cover}
use mathlib.Core.List.{List}
use ocean_linux.Base.{
  ℕ, ◌≡◌, ◌+◌, Option, ◌∷◌, ◌<◌, ◌≤◌, subst, true, arith, Bool-cases, suc, ◌^◌, [], ◌-◌, List-cases,
  leb, some, if◌then◌else◌, zero, inl, none, inr, ltb, ◌*◌, ◌%◌, ℕ_discrete, ap, refl,
}
use ocean_linux.Buddy.{
  Zone, remove_from_free_area, take_block, max_order, word_mod, buddy_alloc_pages, alloc_loop,
  expand,
}

-- What an allocation of 2 ^ order pages at `page` does. The block is aligned to its size and lies
-- in the zone; the free lists lose its pages, each of which was free once, and no other. The
-- counter of free pages falls by twice the size and rises by the size of the block that was split.
pub record Allocated (zone after : Zone) (order page : ℕ) : Type 0 where
  pub valid : IsValid after
  pub place : Placed zone.start_pfn zone.end_pfn page order
  pub start_same : after.start_pfn ≡ zone.start_pfn
  pub end_same : after.end_pfn ≡ zone.end_pfn
  pub covers : (p : ℕ) → cover after p + in_block page order p ≡ cover zone p
  pub source : ℕ
  pub source_le : order ≤ source
  pub source_lt : source < max_order
  pub pages :
      after.free_pages ≡ (zone.free_pages + 2 ^ source + word_mod - 2 * 2 ^ order) % word_mod

-- An allocation of 2 ^ order pages fails, with no change, when no block of that order or above is
-- free; otherwise it takes a block.
abbrev pub Allocates : Zone → ℕ → Zone → Option ℕ → Type 0
Allocates zone order after none =
    (after ≡ zone) × ((k : ℕ) → order ≤ k → k < max_order → blocks zone k ≡ [])
Allocates zone order after (some page) = Allocated zone after order page

lower_part :
    (n order cur : ℕ) {start end b : ℕ}
    → cur ≡ n + order
    → Placed start end b cur
    → Placed start end b order
lower_part zero order cur {start} {end} {b} e place = subst (Placed start end b) (omega arith) place
lower_part (suc n) order zero e place = absurd (omega arith)
lower_part (suc n) order (suc cur) e place =
    lower_part n order cur (omega arith) (lower_half cur place)

module _ {zone : Zone} (v : IsValid zone) (order cur page : ℕ) where
  removed_block :
      cur < max_order
      → listed page (blocks zone cur) ≡ true
      → zone.free_pages < word_mod
      → order ≤ cur
      → Expanded
          (remove_from_free_area zone page cur)
          (if ltb order cur
            then expand (remove_from_free_area zone page cur) page order cur
            else remove_from_free_area zone page cur)
          page
          order
          cur
  unfolding remove_from_free_area
  removed_block small present fits le = elim (Bool-cases (ltb order cur)) [
    | inl split ↦ rw split (
        unfold expand in
        expand_loop-Expanded (cur - order) (2 ^ cur) cur page order
          (remove-IsValid v page cur small present) fits (omega arith) small refl
          (v.placed cur page small present) (remove-Uncovered v page cur small present))
    | inr whole ↦
        let same : order ≡ cur = ground arith in
        rw whole (record {
          valid = remove-IsValid v page cur small present;
          start_same = refl;
          end_same = refl;
          allocs_same = refl;
          covers =
              λ p. ap (λ o. cover (remove_from_free_area zone page cur) p + in_block page o p) same;
          pages = omega (arith, ap (λ (o : ℕ). 2 ^ o) same);
        })
  ]

  take_block-Allocated :
      cur < max_order
      → listed page (blocks zone cur) ≡ true
      → zone.free_pages < word_mod
      → order ≤ cur
      → Allocated zone (take_block zone order cur page) order page
  unfolding take_block cover
  take_block-Allocated small present fits le =
      let out = removed_block small present fits le in
      record {
        valid = counters-IsValid _ _ _ _ out.valid;
        place = lower_part (cur - order) order cur (omega arith) (v.placed cur page small present);
        start_same = unfold remove_from_free_area in out.start_same;
        end_same = unfold remove_from_free_area in out.end_same;
        covers = λ p. omega (arith, out.covers p, cover-remove v page cur small present p);
        source = cur;
        source_le = le;
        source_lt = small;
        pages =
            unfold remove_from_free_area in
            omega (arith, out.pages, two_pow_mono order cur le, two_pow_lt cur 64 (omega arith));
      }

listed-head : (b : ℕ) (bs : List ℕ) → listed b (b ∷ bs) ≡ true
unfolding listed
listed-head b bs = ground arith

module _ {zone : Zone} (v : IsValid zone) (fits : zone.free_pages < word_mod) (order : ℕ) where
  alloc_loop-Allocates :
      (n cur : ℕ)
      → cur + n ≡ max_order
      → order ≤ cur
      → ((k : ℕ) → order ≤ k → k < cur → blocks zone k ≡ [])
      → Allocates zone order (alloc_loop zone order n cur).0 (alloc_loop zone order n cur).1
  unfolding alloc_loop
  alloc_loop-Allocates zero cur e le empty = (refl, λ k h l. empty k h (omega arith))
  alloc_loop-Allocates (suc n) cur e le empty = elim (List-cases (blocks zone cur)) [
    | inr (page, rest, found) ↦
        let present : listed page (blocks zone cur) ≡ true = rw found (listed-head page rest) in
        rw (found, alloc_loop) (take_block-Allocated v order cur page (omega arith) present fits le)
    | inl none_here ↦
        rw (none_here, alloc_loop)
          (alloc_loop-Allocates n (suc cur) (omega arith) (omega arith) (λ k h l.
            elim (ℕ_discrete k cur) [
              | yes same ↦ rw same none_here
              | no other ↦ empty k h (omega arith)
            ]))
  ]

  -- buddy_alloc_pages fails, with no change, when no block of the order or above is free;
  -- otherwise it takes an aligned block of free pages of the zone out of the free lists, leaves
  -- every other free page free, and keeps the zone valid.
  pub buddy_alloc_pages_lem :
      order < max_order
      → Allocates zone order (buddy_alloc_pages zone order).0 (buddy_alloc_pages zone order).1
  unfolding buddy_alloc_pages
  buddy_alloc_pages_lem small = elim (Bool-cases (leb max_order order)) [
    | inl big ↦ absurd (ground arith)
    | inr ok ↦
        rw (ok, buddy_alloc_pages)
          (alloc_loop-Allocates (max_order - order) order (omega arith) (omega arith)
            (λ k h l. absurd (omega arith)))
  ]
