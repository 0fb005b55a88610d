-- ===== src/Buddy/Tests.antt =====
-- The allocator of a zone at concrete inputs: a zone of sixteen pages.
use ocean_linux.Buddy.Alloc.{Allocates, buddy_alloc_pages_lem}
use ocean_linux.Buddy.Free.{Freed, buddy_free_pages_lem}
use ocean_linux.Buddy.Invariant.{Placed, IsValid}
use ocean_linux.Buddy.Cover.{listed, cover, cover_areas, cover_list}
use ocean_linux.Buddy.{
  buddy_alloc_pages, alloc_loop, buddy_free_pages, Zone, coalesce, page_is_buddy, add_to_free_area,
  buddy_pfn,
}
use ocean_linux.Base.{ℕ, arith, [], refl, ◌≡◌, some}

abbrev empty_zone : Zone
empty_zone = record {
  page_array = λ p. record { flags = 0; order = 0 };
  start_pfn = 0;
  end_pfn = 16;
  free_pages = 0;
  free_area = λ o. record { free_list = []; nr_free = 0 };
  alloc_count = 0;
  free_count = 0;
}

empty-cover : (p : ℕ) → cover empty_zone p ≡ 0
unfolding cover cover_areas cover_list
empty-cover p = refl

empty_zone-IsValid : IsValid empty_zone
unfolding listed
empty_zone-IsValid = record {
  small = omega arith;
  placed = λ o b h e. absurd (ground arith);
  marked = λ o b h e. absurd (ground arith);
  complete = λ b h k e. absurd (ground (arith, e));
  counted = λ o h. refl;
  disjoint = λ p. omega (arith, empty-cover p);
}

block-Placed : Placed 0 16 4 2
block-Placed = record { number = 1; aligned = refl; first = omega arith; last = omega arith }

buddy_free_pages_lem_example : Freed empty_zone (buddy_free_pages empty_zone 4 2) 4 2
buddy_free_pages_lem_example =
    buddy_free_pages_lem {zone = empty_zone} 4 2 empty_zone-IsValid (omega arith) block-Placed
      (λ p h k. empty-cover p)

-- The block of four pages is split for one of them.
buddy_alloc_pages_lem_example :
    let zone = buddy_free_pages empty_zone 4 2 in
    Allocates zone 0 (buddy_alloc_pages zone 0).0 (buddy_alloc_pages zone 0).1
buddy_alloc_pages_lem_example =
    buddy_alloc_pages_lem {zone = buddy_free_pages empty_zone 4 2}
      buddy_free_pages_lem_example.valid (omega (arith, buddy_free_pages_lem_example.pages)) 0
      (omega arith)

-- A page is taken out of the block of four.
alloc_4 : (buddy_alloc_pages (buddy_free_pages empty_zone 4 2) 0).1 ≡ some 4
unfolding buddy_alloc_pages alloc_loop buddy_free_pages coalesce page_is_buddy add_to_free_area
    buddy_pfn
alloc_4 = refl
