-- ===== src/Buddy/Free.antt =====
-- Freeing: the merges with free buddies, and what the free lists gain.
use native.Mathlib.Nat.{pow-suc}
use ocean_linux.Buddy.Moves.{
  remove-IsValid, cover-remove, cover-add, add-IsValid, counters-IsValid, counters-cover,
}
use ocean_linux.Base.Bits.{two_pow_pos}
use ocean_linux.Buddy.Split.{in_block, combined_pfn_lem, merge_blocks, halves_of_combined}
use ocean_linux.Buddy.Cover.{listed, cover}
use ocean_linux.Buddy.Invariant.{IsValid, Placed, Uncovered, blocks}
use ocean_linux.Base.{
  ℕ, ◌≡◌, ◌<◌, true, ◌+◌, ◌≤◌, ◌-◌, arith, suc, subst, Bool-cases, inr, inl, zero, refl, ◌*◌, ◌^◌,
  ◌/◌, ◌%◌, ◌∙◌, leb,
}
use ocean_linux.Buddy.{
  Zone, page_is_buddy, coalesce, max_order, has_buddy_flag, buddy_pfn, word_mod,
  remove_from_free_area, combined_pfn, buddy_free_pages, add_free_pages, add_to_free_area,
}

-- The merges of a free block at `pfn`: the buddies that were taken out of the lists and the block
-- make up the block at `page`, which is placed and not in the lists.
pub record Merged (zone after : Zone) (pfn order page final : ℕ) : Type 0 where
  pub valid : IsValid after
  pub start_same : after.start_pfn ≡ zone.start_pfn
  pub end_same : after.end_pfn ≡ zone.end_pfn
  pub pages_same : after.free_pages ≡ zone.free_pages
  pub small : final < max_order
  pub larger : order ≤ final
  pub place : Placed after.start_pfn after.end_pfn page final
  pub free : Uncovered after page final
  pub covers : (p : ℕ) → cover after p + in_block page final p ≡ cover zone p + in_block pfn order p

-- A page that passes the test of page_is_buddy is at the head of a free block of the order.
page_is_buddy-listed :
    {zone : Zone}
    → IsValid zone
    → (b order : ℕ) → page_is_buddy zone b order ≡ true
    → (zone.start_pfn ≤ b) × (b < zone.end_pfn) × (listed b (blocks zone order) ≡ true)
unfolding page_is_buddy
page_is_buddy-listed {zone} v b order h =
    let lo : zone.start_pfn ≤ b = ground arith in
    let hi : b < zone.end_pfn = ground arith in
    let flag : has_buddy_flag (zone.page_array b) ≡ true = ground arith in
    let same : (zone.page_array b).order ≡ order = ground arith in
    (lo, hi, subst (λ o. listed b (blocks zone o) ≡ true) same (v.complete b lo hi flag).1)

-- The combined block of two placed buddies is placed, and holds their pages.
combined_facts :
    (q o : ℕ) {start end : ℕ}
    → end < word_mod
    → o < 64
    → Placed start end (q * 2 ^ o) o
    → Placed start end (buddy_pfn (q * 2 ^ o) o) o
    → Placed start end (combined_pfn (q * 2 ^ o) o) (suc o)
combined_facts q o {start} {end} fits small place buddy =
    let range : q * 2 ^ o < word_mod = omega (arith, place.last, two_pow_pos o) in
    record {
      number = q / 2;
      aligned = combined_pfn_lem o q small range;
      first = elim (halves_of_combined o q small range) [
        | inl e ↦ omega (arith, e, place.first)
        | inr e ↦ omega (arith, e, buddy.first)
      ];
      last = elim (halves_of_combined o q small range) [
        | inl e ↦ omega (arith, e, buddy.last, pow-suc 2 o)
        | inr e ↦ omega (arith, e, place.last, pow-suc 2 o)
      ];
    }

-- One merge: the buddy leaves the lists, and the loop goes on with the combined block.
merge_step :
    (rounds : ℕ) {zone : Zone} (pfn order : ℕ)
    → IsValid zone
    → suc order + rounds ≡ max_order - 1
    → Placed zone.start_pfn zone.end_pfn pfn order
    → Uncovered zone pfn order
    → listed (buddy_pfn pfn order) (blocks zone order) ≡ true
    → ((z : Zone)
        → IsValid z
        → suc order + rounds ≡ max_order - 1
        → Placed z.start_pfn z.end_pfn (combined_pfn pfn order) (suc order)
        → Uncovered z (combined_pfn pfn order) (suc order)
        → let (after, page, final) = coalesce z (combined_pfn pfn order) (suc order) rounds in
          Merged z after (combined_pfn pfn order) (suc order) page final)
    → let (after, page, final) =
        coalesce
          (remove_from_free_area zone (buddy_pfn pfn order) order)
          (combined_pfn pfn order)
          (suc order)
          rounds in
      Merged zone after pfn order page final
unfolding remove_from_free_area
merge_step rounds {zone} pfn order v e place free present rest =
    let buddy = buddy_pfn pfn order in
    let small : order < max_order = omega arith in
    let q = place.number in
    let number : pfn ≡ q * 2 ^ order = place.aligned in
    let removed = remove-IsValid v buddy order small present in
    let gone = cover-remove v buddy order small present in
    let range : q * 2 ^ order < word_mod = omega (arith, place.last, v.small, two_pow_pos order) in
    let union : (p : ℕ)
        → in_block pfn order p + in_block buddy order p
          ≡ in_block (combined_pfn pfn order) (suc order) p =
      λ p. rw number (merge_blocks order q p (omega arith) range) in
    let combined : Placed zone.start_pfn zone.end_pfn (combined_pfn pfn order) (suc order) =
      rw number (
        combined_facts q order v.small (omega arith)
          (subst (λ b. Placed zone.start_pfn zone.end_pfn b order) number place)
          (subst (λ b. Placed zone.start_pfn zone.end_pfn (buddy_pfn b order) order) number
            (v.placed order buddy small present))) in
    let clear : Uncovered (remove_from_free_area zone buddy order) (combined_pfn pfn order)
        (suc order) =
      λ p h k. ground (arith, gone p, union p, free p, v.disjoint p) in
    let out = rest (remove_from_free_area zone buddy order) removed e combined clear in
    record {
      valid = out.valid;
      start_same = out.start_same;
      end_same = out.end_same;
      pages_same = out.pages_same;
      small = out.small;
      larger = omega (arith, out.larger);
      place = out.place;
      free = out.free;
      covers = λ p. omega (arith, out.covers p, gone p, union p);
    }

coalesce-Merged :
    (rounds : ℕ) {zone : Zone} (pfn order : ℕ)
    → IsValid zone
    → order + rounds ≡ max_order - 1
    → Placed zone.start_pfn zone.end_pfn pfn order
    → Uncovered zone pfn order
    → let (after, page, final) = coalesce zone pfn order rounds in
      Merged zone after pfn order page final
unfolding coalesce
coalesce-Merged zero {zone} pfn order v e place free = record {
  valid = v;
  start_same = refl;
  end_same = refl;
  pages_same = refl;
  small = omega arith;
  larger = omega arith;
  place = place;
  free = free;
  covers = λ p. refl;
}
coalesce-Merged (suc rounds) {zone} pfn order v e place free =
    elim (Bool-cases (page_is_buddy zone (buddy_pfn pfn order) order)) [
      | inr alone ↦
          rw (alone, coalesce)
            (record {
              valid = v;
              start_same = refl;
              end_same = refl;
              pages_same = refl;
              small = omega arith;
              larger = omega arith;
              place = place;
              free = free;
              covers = λ p. refl;
            })
      | inl pair ↦
          rw (pair, coalesce)
            (merge_step rounds pfn order v (omega arith) place free
              (page_is_buddy-listed v (buddy_pfn pfn order) order pair).2
              (λ z. coalesce-Merged rounds {zone = z} (combined_pfn pfn order) (suc order)))
    ]

-- What freeing the block at `pfn` does: its pages enter the free lists, and nothing else does. The
-- counter of free pages rises by the size of the block after the merges.
pub record Freed (zone after : Zone) (pfn order : ℕ) : Type 0 where
  pub valid : IsValid after
  pub start_same : after.start_pfn ≡ zone.start_pfn
  pub end_same : after.end_pfn ≡ zone.end_pfn
  pub covers : (p : ℕ) → cover after p ≡ cover zone p + in_block pfn order p
  pub final : ℕ
  pub final_ge : order ≤ final
  pub final_lt : final < max_order
  pub pages : after.free_pages ≡ (zone.free_pages + 2 ^ final) % word_mod

-- buddy_free_pages of a placed block, none of whose pages is free, makes exactly its pages free and
-- keeps the zone valid, whatever buddies it merges with.
pub buddy_free_pages_lem :
    {zone : Zone} (pfn order : ℕ)
    → IsValid zone
    → order < max_order
    → Placed zone.start_pfn zone.end_pfn pfn order
    → Uncovered zone pfn order
    → Freed zone (buddy_free_pages zone pfn order) pfn order
unfolding buddy_free_pages
buddy_free_pages_lem {zone} pfn order v small place free = elim (Bool-cases (leb max_order order)) [
  | inl big ↦ absurd (ground arith)
  | inr ok ↦
      let m = coalesce-Merged (max_order - 1 - order) pfn order v (omega arith) place free in
      rw (ok, buddy_free_pages)
        (freed m.valid m.small m.larger m.place m.free m.start_same m.end_same m.pages_same
          m.covers)
]
  where
    freed :
        {merged : Zone} {page final : ℕ}
        → IsValid merged
        → final < max_order
        → order ≤ final
        → Placed merged.start_pfn merged.end_pfn page final
        → Uncovered merged page final
        → merged.start_pfn ≡ zone.start_pfn
        → merged.end_pfn ≡ zone.end_pfn
        → merged.free_pages ≡ zone.free_pages
        → ((p : ℕ) → cover merged p + in_block page final p ≡ cover zone p + in_block pfn order p)
        → let added = add_free_pages (add_to_free_area merged page final) final in
          Freed zone (record added { free_count = (added.free_count + 1) % word_mod }) pfn order
    freed {merged} {page} {final} w lt ge pl fr ss es ps cs =
        let covers = cover-add w page final lt pl fr in
        let added = add-IsValid w page final lt pl fr in
        record {
          valid = counters-IsValid (add_to_free_area merged page final) _ _ _ added;
          start_same = unfold add_to_free_area in ss;
          end_same = unfold add_to_free_area in es;
          covers =
              λ p. counters-cover (add_to_free_area merged page final) _ _ _ p ∙ covers p ∙ cs p;
          final = final;
          final_ge = ge;
          final_lt = lt;
          pages = unfold add_to_free_area in omega (arith, ps);
        }
