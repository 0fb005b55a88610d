-- ===== src/Buddy/Expand.antt =====
-- The split of a block: expand of kernel/mm/buddy.c.
use ocean_linux.Base.Bits.{two_pow_mono, two_pow_lt}
use ocean_linux.Buddy.Moves.{add-IsValid, cover-add, counters-IsValid}
use native.Mathlib.Nat.{pow-suc}
use ocean_linux.Buddy.Split.{in_block, even_number, odd_number, join_halves}
use ocean_linux.Buddy.Cover.{cover}
use ocean_linux.Buddy.Invariant.{IsValid, Placed, Uncovered}
use ocean_linux.Base.{
  ℕ, ◌≡◌, suc, ◌*◌, ◌+◌, ◌^◌, ◌∙◌, arith, ap, ◌-◌, ◌%◌, ◌<◌, sym, zero, refl, ◌/◌,
}
use ocean_linux.Buddy.{Zone, expand_loop, word_mod, max_order, add_to_free_area, add_free_pages}

-- The two halves of a placed block are placed.
pub lower_half : {start end b : ℕ} (o : ℕ) → Placed start end b (suc o) → Placed start end b o
lower_half o place = record {
  number = 2 * place.number;
  aligned = place.aligned ∙ even_number place.number o;
  first = place.first;
  last = omega (arith, place.last, pow-suc 2 o);
}

pub upper_half :
    {start end b : ℕ} (o : ℕ) → Placed start end b (suc o) → Placed start end (b + 2 ^ o) o
upper_half o place = record {
  number = 2 * place.number + 1;
  aligned = ap (λ x. x + 2 ^ o) place.aligned ∙ odd_number place.number o;
  first = omega (arith, place.first);
  last = omega (arith, place.last, pow-suc 2 o);
}

-- What a split of the block at `page` from order `high` to order `low` does: the block of order
-- `low` stays out of the lists, and the rest of the block enters them.
pub record Expanded (zone after : Zone) (page low high : ℕ) : Type 0 where
  pub valid : IsValid after
  pub start_same : after.start_pfn ≡ zone.start_pfn
  pub end_same : after.end_pfn ≡ zone.end_pfn
  pub allocs_same : after.alloc_count ≡ zone.alloc_count
  pub covers : (p : ℕ) → cover after p + in_block page low p ≡ cover zone p + in_block page high p
  pub pages : after.free_pages ≡ (zone.free_pages + 2 ^ high - 2 ^ low) % word_mod

Uncovered-upper : (zone : Zone) (b o : ℕ) → Uncovered zone b (suc o) → Uncovered zone (b + 2 ^ o) o
Uncovered-upper zone b o free p h k = free p (omega arith) (omega (arith, pow-suc 2 o))

Uncovered-lower : (zone : Zone) (b o : ℕ) → Uncovered zone b (suc o) → Uncovered zone b o
Uncovered-lower zone b o free p h k = free p h (omega (arith, pow-suc 2 o))

-- One round: the upper half enters the lists, and the lower half is split on.
expand_step :
    (rounds high : ℕ) {zone : Zone} (page low : ℕ)
    → IsValid zone
    → zone.free_pages < word_mod
    → high ≡ low + rounds
    → suc high < max_order
    → Placed zone.start_pfn zone.end_pfn page (suc high)
    → Uncovered zone page (suc high)
    → ((z : Zone)
        → IsValid z
        → z.free_pages < word_mod
        → high ≡ low + rounds
        → high < max_order
        → 2 ^ high ≡ 2 ^ high
        → Placed z.start_pfn z.end_pfn page high
        → Uncovered z page high
        → Expanded z (expand_loop z page low rounds (2 ^ high)) page low high)
    → let z = add_free_pages (add_to_free_area zone (page + 2 ^ high) high) high in
      Expanded zone (expand_loop z page low rounds (2 ^ high)) page low (suc high)
unfolding add_to_free_area cover
expand_step rounds high {zone} page low v fits e small place free rest =
    let upper = upper_half high place in
    let outside = Uncovered-upper zone page high free in
    let added = add-IsValid v (page + 2 ^ high) high (omega arith) upper outside in
    let covers = cover-add v (page + 2 ^ high) high (omega arith) upper outside in
    let z = add_free_pages (add_to_free_area zone (page + 2 ^ high) high) high in
    let valid : IsValid z = counters-IsValid _ _ _ _ added in
    let lower_free : Uncovered z page high =
      λ p h k. ground (arith, covers p, Uncovered-lower zone page high free p h k) in
    let out = rest z valid (omega arith) e (omega arith) refl (lower_half high place) lower_free in
    record {
      valid = out.valid;
      start_same = out.start_same;
      end_same = out.end_same;
      allocs_same = out.allocs_same;
      covers = λ p. omega (arith, out.covers p, covers p, join_halves page high p);
      pages = omega (
        arith,
        out.pages,
        pow-suc 2 high,
        two_pow_mono low high (omega arith),
        two_pow_lt high 64 (omega arith),
      );
    }

pub expand_loop-Expanded :
    (rounds size high : ℕ) {zone : Zone} (page low : ℕ)
    → IsValid zone
    → zone.free_pages < word_mod
    → high ≡ low + rounds
    → high < max_order
    → size ≡ 2 ^ high
    → Placed zone.start_pfn zone.end_pfn page high
    → Uncovered zone page high
    → Expanded zone (expand_loop zone page low rounds size) page low high
unfolding expand_loop
expand_loop-Expanded zero size high {zone} page low v fits e small s place free =
    let same : high ≡ low = omega arith in
    record {
      valid = v;
      start_same = refl;
      end_same = refl;
      allocs_same = refl;
      covers = λ p. ap (λ o. cover zone p + in_block page o p) (sym same);
      pages = omega (arith, ap (λ (o : ℕ). 2 ^ o) same);
    }
expand_loop-Expanded (suc rounds) size zero page low v fits e small s place free =
    absurd (omega arith)
expand_loop-Expanded (suc rounds) size (suc high) {zone} page low v fits e small s place free =
    let here : low + rounds ≡ high = omega arith in
    let half : size / 2 ≡ 2 ^ high = omega (arith, pow-suc 2 high) in
    rw (expand_loop, here, half)
      (expand_step rounds high page low v fits (omega arith) (omega arith) place free
        (λ z. expand_loop-Expanded rounds (2 ^ high) high {zone = z} page low))
