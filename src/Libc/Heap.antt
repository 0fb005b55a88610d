-- ===== src/Libc/Heap.antt =====
-- lib/libc/src/stdlib.c: the heap. The list of blocks starts at the start of heap_area, and each
-- block follows the one in front of it: the next pointer of a block is the end of its payload. An
-- address is the offset from heap_area; a pointer is the address of a payload, behind the header.
-- The empty list is the heap before heap_init. `bytes` has the payloads of the blocks in use; what
-- a new payload holds is not specified. Where free or realloc is given another pointer, the result
-- is none. Sums of sizes of blocks are at most LIBC_HEAP_SIZE and do not wrap around, and an aligned
-- size that is compared in a sum was found to be below the size of a block.
use ocean_linux.Libc.{Mem}
use ocean_linux.Libc.Memory.{memset, memcpy}
use ocean_linux.Base.{
  ℕ, ◌*◌, ◌^◌, ◌+◌, Bool, List, Option, ◌∷◌, none, some, if◌then◌else◌, ◌-◌, true, false, not, ◌==◌,
  ltb, [], leb, ◌&&◌, ◌%◌, ◌||◌, ◌/◌,
}

pub record Block : Type 0 where
  pub size : ℕ
  pub free : Bool

pub record Heap : Type 0 where
  pub blocks : List Block
  pub bytes : Mem

abbrev pub libc_heap_size : ℕ
libc_heap_size = 128 * 1024

abbrev pub libc_heap_align : ℕ
libc_heap_align = 16

-- sizeof(struct heap_block)
abbrev pub header_size : ℕ
header_size = 24

abbrev pub word_mod : ℕ
word_mod = 2 ^ 64

-- With align = LIBC_HEAP_ALIGN, a power of two.
unfoldable pub align_up_size : ℕ → ℕ
align_up_size value = (value + libc_heap_align - 1) % word_mod / libc_heap_align * libc_heap_align

unfoldable pub heap_init : List Block → List Block
heap_init [] = record { size = libc_heap_size - header_size; free = true } ∷ []
heap_init (b ∷ bs) = b ∷ bs

-- With the blocks behind the block.
unfoldable pub split_block : Block → ℕ → List Block → List Block
split_block b size rest =
    record b { size = size } ∷ record { size = b.size - size - header_size; free = true } ∷ rest

-- The block is split where that leaves room for another.
unfoldable pub trim : Block → ℕ → List Block → List Block
unfolding split_block
trim b aligned rest =
    if leb (aligned + header_size + libc_heap_align) b.size
    then split_block b aligned rest
    else b ∷ rest

-- The loop from a block on.
unfoldable pub coalesce_from : Block → List Block → List Block
coalesce_from b [] = b ∷ []
coalesce_from b (next ∷ rest) = elim (b.free && next.free) [
  | true ↦ coalesce_from (record b { size = b.size + (header_size + next.size) }) rest
  | false ↦ b ∷ coalesce_from next rest
]

unfoldable pub coalesce_blocks : List Block → List Block
unfolding coalesce_from
coalesce_blocks [] = []
coalesce_blocks (b ∷ bs) = coalesce_from b bs

-- block->free = 0
abbrev pub claim : List Block → List Block
claim [] = []
claim (b ∷ bs) = record b { free = false } ∷ bs

-- The loop of malloc from the block at `at` on: the blocks, and the payload that was found.
unfoldable pub find_fit : ℕ → ℕ → List Block → Option (List Block × ℕ)
unfolding trim
find_fit aligned at [] = none
find_fit aligned at (b ∷ bs) =
    let later = find_fit aligned (at + header_size + b.size) bs in
    if not b.free || ltb b.size aligned
    then elim later [ none ↦ none | some found ↦ some (b ∷ found.0, found.1) ]
    else some (claim (trim b aligned bs), at + header_size)

unfoldable pub malloc : Heap → ℕ → Heap × Option ℕ
unfolding find_fit heap_init align_up_size
malloc heap size =
    let ready = heap_init heap.blocks in
    if size == 0 then (heap, none) else elim (find_fit (align_up_size size) 0 ready) [
      | none ↦ (record heap { blocks = ready }, none)
      | some found ↦ (record heap { blocks = found.0 }, some found.1)
    ]

-- block->free = 1 for the block of the payload `p`.
unfoldable pub release_at : ℕ → ℕ → List Block → Option (List Block)
release_at p at [] = none
release_at p at (b ∷ bs) =
    let later = release_at p (at + header_size + b.size) bs in
    if p == at + header_size
    then some (record b { free = true } ∷ bs)
    else elim later [ none ↦ none | some released ↦ some (b ∷ released) ]

unfoldable pub free_ptr : Heap → Option ℕ → Option Heap
unfolding release_at coalesce_blocks
free_ptr heap none = some heap
free_ptr heap (some p) = elim (release_at p 0 heap.blocks) [
  | none ↦ none
  | some released ↦ some (record heap { blocks = coalesce_blocks released })
]

unfoldable pub calloc : Heap → ℕ → ℕ → Heap × Option ℕ
unfolding malloc memset
calloc heap nmemb size =
    let total = nmemb * size in
    let out = malloc heap total in
    if (nmemb == 0) || (size == 0)
    then (heap, none)
    else if ltb ((word_mod - 1) / size) nmemb
    then (heap, none)
    else elim out.1 [
      | none ↦ out
      | some p ↦ (record out.0 { bytes = memset out.0.bytes p 0 total }, some p)
    ]

-- The block in place, if it is or can be made large enough.
unfoldable pub grow : ℕ → Block → List Block → Option (List Block)
unfolding trim
grow aligned b bs = if leb aligned b.size then some (trim b aligned bs) else elim bs [
  | [] ↦ none
  | next ∷ rest ↦
      let joined = b.size + (header_size + next.size) in
      if next.free && leb aligned joined
      then some (trim (record b { size = joined }) aligned rest)
      else none
]

-- The size of the block of the payload `p`, and the blocks after it was resized in place.
unfoldable pub resize_at : ℕ → ℕ → ℕ → List Block → Option (ℕ × Option (List Block))
unfolding grow
resize_at aligned p at [] = none
resize_at aligned p at (b ∷ bs) =
    let later = resize_at aligned p (at + header_size + b.size) bs in
    if p == at + header_size then some (b.size, grow aligned b bs) else elim later [
      | none ↦ none
      | some (size, none) ↦ some (size, none)
      | some (size, some resized) ↦ some (size, some (b ∷ resized))
    ]

-- The payload moves.
unfoldable pub move_payload : Heap → ℕ → ℕ → ℕ → Option (Heap × Option ℕ)
unfolding malloc memcpy free_ptr
move_payload heap p old_size size =
    let out = malloc heap size in
    elim out.1 [
      | none ↦ some out
      | some q ↦
          let count = (if ltb old_size size then old_size else size) in
          elim (free_ptr (record out.0 { bytes = memcpy out.0.bytes q p count }) (some p)) [
            | none ↦ none
            | some after ↦ some (after, some q)
          ]
    ]

unfoldable pub realloc : Heap → Option ℕ → ℕ → Option (Heap × Option ℕ)
unfolding malloc free_ptr resize_at move_payload align_up_size
realloc heap none size = some (malloc heap size)
realloc heap (some p) size =
    if size == 0
    then elim (free_ptr heap (some p)) [ none ↦ none | some after ↦ some (after, none) ]
    else elim (resize_at (align_up_size size) p 0 heap.blocks) [
      | none ↦ none
      | some (old_size, none) ↦ move_payload heap p old_size size
      | some (old_size, some resized) ↦ some (record heap { blocks = resized }, some p)
    ]
