-- ===== src/Buddy.antt =====
-- kernel/mm/buddy.c: the buddy allocator of one zone, with struct page, struct free_area and
-- struct zone of kernel/include/ocean/pmm.h. A page is named by its number, so page_to_pfn and
-- pfn_to_page leave it as it is; the page array and the array of free areas are functions from
-- an index. A free list is a list of page numbers, its head first: list_add puts a page at the
-- head, and list_del takes it out of the list that holds it. Of struct page the fields that the
-- allocator uses are kept. The spinlock is held over each call: one step. The dump and the
-- integrity check only print.
pub mod Split
pub mod Cover
pub mod Invariant
pub mod Moves
pub mod Expand
pub mod Alloc
pub mod Free
mod Tests
use ocean_linux.Base.Bits.{bit_not}
use ocean_linux.Base.{
  ℕ, Bool, true, false, ◌-◌, List, [], bit_or, ◌^◌, ◌+◌, not, bit_xor, bit_and, if◌then◌else◌,
  Option, suc, leb, ltb, none, ◌∷◌, ◌==◌, zero, ◌%◌, ◌/◌, some, ◌||◌,
}

pub record Page : Type 0 where
  pub flags : ℕ
  pub order : ℕ

pub record FreeArea : Type 0 where
  pub free_list : List ℕ
  pub nr_free : ℕ

-- The zone, with the page array beside it.
pub record Zone : Type 0 where
  pub page_array : ℕ → Page
  pub start_pfn : ℕ
  pub end_pfn : ℕ
  pub free_pages : ℕ
  pub free_area : ℕ → FreeArea
  pub alloc_count : ℕ
  pub free_count : ℕ

abbrev pub max_order : ℕ
max_order = 11

abbrev pub word_mod : ℕ
word_mod = 2 ^ 64

abbrev pub pg_buddy : ℕ
pg_buddy = 2

-- A store into an array.
abbrev pub update {ℓ} : {A : Type ℓ} → (ℕ → A) → ℕ → A → ℕ → A
update f i v j = if i == j then v else f j

pub buddy_pfn : ℕ → ℕ → ℕ
buddy_pfn pfn order = bit_xor pfn (2 ^ order)

pub combined_pfn : ℕ → ℕ → ℕ
combined_pfn pfn order = bit_and pfn (bit_not 64 (2 ^ order))

abbrev pub has_buddy_flag : Page → Bool
has_buddy_flag page = not (bit_and page.flags pg_buddy == 0)

pub page_is_buddy : Zone → ℕ → ℕ → Bool
page_is_buddy zone buddy order =
    if ltb buddy zone.start_pfn || leb zone.end_pfn buddy
    then false
    else if not (has_buddy_flag (zone.page_array buddy))
    then false
    else if not ((zone.page_array buddy).order == order)
    then false
    else true

-- list_add, the counter, page->order and PG_BUDDY.
pub add_to_free_area : Zone → ℕ → ℕ → Zone
add_to_free_area zone page order = record zone {
  page_array =
      update zone.page_array page
        (record { flags = bit_or (zone.page_array page).flags pg_buddy; order = order });
  free_area = update zone.free_area order (record {
    free_list = page ∷ (zone.free_area order).free_list;
    nr_free = ((zone.free_area order).nr_free + 1) % word_mod;
  });
}

-- list_del
pub unlink : ℕ → List ℕ → List ℕ
unlink page [] = []
unlink page (p ∷ ps) = if p == page then ps else p ∷ unlink page ps

-- The area is the one of `order`; `page->order` stays.
pub remove_from_free_area : Zone → ℕ → ℕ → Zone
unfolding unlink
remove_from_free_area zone page order = record zone {
  page_array = update zone.page_array page (record (zone.page_array page) {
    flags = bit_and (zone.page_array page).flags (bit_not 32 pg_buddy);
  });
  free_area = update zone.free_area order (record {
    free_list = unlink page (zone.free_area order).free_list;
    nr_free = ((zone.free_area order).nr_free + word_mod - 1) % word_mod;
  });
}

-- `zone->free_pages += (1UL << order)`
abbrev pub add_free_pages : Zone → ℕ → Zone
add_free_pages zone order = record zone { free_pages = (zone.free_pages + 2 ^ order) % word_mod }

-- The loop has `rounds` to go, so `high` is `low + rounds`; `size` is halved in each.
pub expand_loop : Zone → ℕ → ℕ → ℕ → ℕ → Zone
unfolding add_to_free_area
expand_loop zone page low zero size = zone
expand_loop zone page low (suc rounds) size =
    let high = low + rounds in
    expand_loop (add_free_pages (add_to_free_area zone (page + size / 2) high) high) page low rounds
      (size / 2)

pub expand : Zone → ℕ → ℕ → ℕ → Zone
expand zone page low high = expand_loop zone page low (high - low) (2 ^ high)

-- What happens to the block that the search finds at the head of the list of `current_order`.
pub take_block : Zone → ℕ → ℕ → ℕ → Zone
take_block zone order current_order page =
    let removed = remove_from_free_area zone page current_order in
    let split =
      (if ltb order current_order then expand removed page order current_order else removed) in
    record split {
      free_pages = (split.free_pages + word_mod - 2 ^ order) % word_mod;
      alloc_count = (split.alloc_count + 1) % word_mod;
    }

-- The loop over `current_order`, with the rounds left.
pub alloc_loop : Zone → ℕ → ℕ → ℕ → Zone × Option ℕ
alloc_loop zone order zero current_order = (zone, none)
alloc_loop zone order (suc n) current_order = elim (zone.free_area current_order).free_list [
  | [] ↦ alloc_loop zone order n (suc current_order)
  | page ∷ rest ↦ (take_block zone order current_order page, some page)
]

pub buddy_alloc_pages : Zone → ℕ → Zone × Option ℕ
buddy_alloc_pages zone order =
    if leb max_order order then (zone, none) else alloc_loop zone order (max_order - order) order

-- The block after the merges: the zone, its first page and its order. The loop has `rounds` to go
-- until the order is MAX_ORDER - 1.
pub coalesce : Zone → ℕ → ℕ → ℕ → Zone × ℕ × ℕ
coalesce zone pfn order zero = (zone, pfn, order)
coalesce zone pfn order (suc rounds) =
    let buddy = buddy_pfn pfn order in
    let merged =
      coalesce (remove_from_free_area zone buddy order) (combined_pfn pfn order) (suc order)
        rounds in
    if not (page_is_buddy zone buddy order) then (zone, pfn, order) else merged

pub buddy_free_pages : Zone → ℕ → ℕ → Zone
buddy_free_pages zone pfn order =
    if leb max_order order
    then zone
    else let (merged, page, final) = coalesce zone pfn order (max_order - 1 - order) in
      let added = add_free_pages (add_to_free_area merged page final) final in
      record added { free_count = (added.free_count + 1) % word_mod }

pub buddy_init_zone : Zone → Zone
buddy_init_zone zone = record zone { free_area = λ order. record { free_list = []; nr_free = 0 } }

-- The largest order at which a block may begin at `pfn`, searched from `order` down.
pub fit_order : ℕ → ℕ → ℕ → ℕ
fit_order pfn end_pfn zero = 0
fit_order pfn end_pfn (suc order) =
    let lower = fit_order pfn end_pfn order in
    if not (bit_and pfn (2 ^ suc order - 1) == 0)
    then lower
    else if ltb end_pfn ((pfn + 2 ^ suc order) % word_mod)
    then lower
    else suc order

-- The loop over `pfn`. Each round adds at least one page, so as many rounds as there are pages are
-- enough.
pub add_loop : Zone → ℕ → ℕ → ℕ → Zone
add_loop zone end_pfn zero pfn = zone
add_loop zone end_pfn (suc n) pfn =
    let order = fit_order pfn end_pfn (max_order - 1) in
    let rest =
      add_loop (add_free_pages (add_to_free_area zone pfn order) order) end_pfn n
        ((pfn + 2 ^ order) % word_mod) in
    if ltb pfn end_pfn then rest else zone

pub buddy_add_pages : Zone → ℕ → ℕ → Zone
buddy_add_pages zone start_pfn nr_pages =
    add_loop zone ((start_pfn + nr_pages) % word_mod) nr_pages start_pfn
