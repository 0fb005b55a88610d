-- ===== src/Buddy/Moves.antt =====
-- The two moves from which every operation of the allocator is made: a block enters a free list
-- or leaves it.
use ocean_linux.Buddy.Split.{in_block}
use ocean_linux.Base.Bits.{two_pow_pos}
use ocean_linux.Buddy.Cover.{
  listed, cover, cover_list, length-unlink, cover_areas-update, listed-unlink, cover_list-unlink,
}
use ocean_linux.Buddy.Invariant.{
  IsValid, Placed, Uncovered, blocks, listed-cover, flag_after_set, flag_after_clear,
}
use ocean_linux.Base.{
  ℕ, true, false, ◌<◌, ◌≡◌, Bool-cases, inr, inl, arith, if◌then◌else◌, ◌==◌, ◌+◌, ◌&&◌, ◌≢◌, subst,
  ℕ_discrete, sym, ◌∙◌, ap, ◌-◌, ◌%◌, refl,
}
use ocean_linux.Buddy.{
  Zone, max_order, add_to_free_area, remove_from_free_area, has_buddy_flag, unlink, word_mod,
}

module _ {zone : Zone} (v : IsValid zone) (b o : ℕ) (small : o < max_order) where
  listed-add :
      (k c : ℕ)
      → listed c (blocks (add_to_free_area zone b o) k)
        ≡ (if o == k && b == c then true else listed c (blocks zone k))
  unfolding add_to_free_area listed
  listed-add k c = ground arith

  page-add :
      (c : ℕ)
      → (has_buddy_flag ((add_to_free_area zone b o).page_array c)
          ≡ (if b == c then true else has_buddy_flag (zone.page_array c)))
        × (((add_to_free_area zone b o).page_array c).order
            ≡ (if b == c then o else (zone.page_array c).order))
  unfolding add_to_free_area
  page-add c = (ground (arith, flag_after_set (zone.page_array b).flags), ground arith)

  module _ (place : Placed zone.start_pfn zone.end_pfn b o) (outside : Uncovered zone b o) where
    pub cover-add : (p : ℕ) → cover (add_to_free_area zone b o) p ≡ cover zone p + in_block b o p
    unfolding cover add_to_free_area cover_list
    cover-add p = omega (arith, cover_areas-update zone.free_area max_order o p _ small)

    not_listed : (k : ℕ) → k < max_order → listed b (blocks zone k) ≡ false
    not_listed k h = elim (Bool-cases (listed b (blocks zone k))) [
      | inr e ↦ e
      | inl e ↦ absurd (
          omega (
            arith,
            listed-cover zone k b h e,
            outside b (omega arith) (omega (arith, two_pow_pos o)),
          ))
    ]

    add-Placed :
        (k c : ℕ)
        → k < max_order
        → listed c (blocks (add_to_free_area zone b o) k) ≡ true
        → Placed zone.start_pfn zone.end_pfn c k
    add-Placed k c h e = elim (Bool-cases (o == k && b == c)) [
      | inl new ↦
          let same_page : b ≡ c = ground arith in
          let same_order : o ≡ k = ground arith in
          subst (λ x. Placed zone.start_pfn zone.end_pfn x k) same_page
            (subst (λ y. Placed zone.start_pfn zone.end_pfn b y) same_order place)
      | inr old ↦ v.placed k c h (ground (arith, listed-add k c))
    ]

    pub add-IsValid : IsValid (add_to_free_area zone b o)
    unfolding add_to_free_area
    add-IsValid = record {
      small = v.small;
      placed = add-Placed;
      marked =
          λ k c h e. ground (arith, listed-add k c, page-add c, v.marked k c h, not_listed k h);
      complete = λ c h k e. ground (
        arith,
        page-add c,
        v.complete c h k,
        listed-add ((add_to_free_area zone b o).page_array c).order c,
      );
      counted = λ k h. ground (arith, v.counted k h);
      disjoint = λ p. ground (arith, cover-add p, v.disjoint p, outside p);
    }

  module _ (present : listed b (blocks zone o) ≡ true) where
    pub cover-remove :
        (p : ℕ) → cover (remove_from_free_area zone b o) p + in_block b o p ≡ cover zone p
    unfolding cover remove_from_free_area
    cover-remove p = omega (
      arith,
      cover_areas-update zone.free_area max_order o p
          (record {
            free_list = unlink b (blocks zone o);
            nr_free = ((zone.free_area o).nr_free + word_mod - 1) % word_mod;
          })
          small,
      cover_list-unlink b (blocks zone o) o p present,
    )

    -- The pages of the block are free no more.
    pub remove-Uncovered : Uncovered (remove_from_free_area zone b o) b o
    remove-Uncovered p h k = ground (arith, cover-remove p, v.disjoint p)

    listed-remove_ne :
        (k c : ℕ)
        → c ≢ b
        → listed c (blocks (remove_from_free_area zone b o) k) ≡ listed c (blocks zone k)
    unfolding remove_from_free_area
    listed-remove_ne k c h = ground (arith, listed-unlink b c (blocks zone k) h)

    gone : (k : ℕ) → k < max_order → listed b (blocks (remove_from_free_area zone b o) k) ≡ false
    gone k h = elim (Bool-cases (listed b (blocks (remove_from_free_area zone b o) k))) [
      | inr e ↦ e
      | inl e ↦ absurd (
          omega (
            arith,
            listed-cover (remove_from_free_area zone b o) k b h e,
            remove-Uncovered b (omega arith) (omega (arith, two_pow_pos o)),
          ))
    ]

    page-remove :
        (c : ℕ)
        → (has_buddy_flag ((remove_from_free_area zone b o).page_array c)
            ≡ (if b == c then false else has_buddy_flag (zone.page_array c)))
          × (((remove_from_free_area zone b o).page_array c).order ≡ (zone.page_array c).order)
    unfolding remove_from_free_area
    page-remove c = (ground (arith, flag_after_clear (zone.page_array b).flags), ground arith)

    -- A page listed afterwards is another page, and was listed before.
    listed_before :
        (k c : ℕ)
        → k < max_order
        → listed c (blocks (remove_from_free_area zone b o) k) ≡ true
        → (c ≢ b) × (listed c (blocks zone k) ≡ true)
    listed_before k c h e = elim (ℕ_discrete c b) [
      | yes same ↦ absurd (
          true_ne_false (
            sym e ∙ ap (λ x. listed x (blocks (remove_from_free_area zone b o) k)) same ∙ gone k h))
      | no other ↦ (other, sym (listed-remove_ne k c other) ∙ e)
    ]
      where
        true_ne_false : true ≡ false → ⊥
        true_ne_false x = cc

    pub remove-IsValid : IsValid (remove_from_free_area zone b o)
    unfolding remove_from_free_area
    remove-IsValid = record {
      small = v.small;
      placed = λ k c h e. v.placed k c h (listed_before k c h e).1;
      marked = λ k c h e.
          let old = listed_before k c h e in
          ground (arith, page-remove c, v.marked k c h old.1, old.0);
      complete = λ c h k e.
          ground
            (arith, page-remove c, v.complete c h k, listed-remove_ne (zone.page_array c).order c);
      counted = λ k h. ground (arith, v.counted k h, length-unlink b (blocks zone o) present);
      disjoint = λ p. omega (arith, cover-remove p, v.disjoint p);
    }

-- The counters of a zone play no part in its invariant.
module _ (zone : Zone) (pages allocs frees : ℕ) where
  abbrev pub with_counters : Zone
  with_counters = record zone { free_pages = pages; alloc_count = allocs; free_count = frees }

  pub counters-IsValid : IsValid zone → IsValid with_counters
  unfolding cover
  counters-IsValid v = record {
    small = v.small;
    placed = v.placed;
    marked = v.marked;
    complete = v.complete;
    counted = v.counted;
    disjoint = v.disjoint;
  }

  pub counters-cover : (p : ℕ) → cover with_counters p ≡ cover zone p
  unfolding cover
  counters-cover p = refl
