-- ===== src/Libc/Tests.antt =====
-- The theorems about the C library at concrete inputs.
use ocean_linux.Libc.Numbers.{
  strtol, skip_spaces, isspace, read_sign, read_prefix, read_digits, digit_value, isdigit, isalpha,
}
use ocean_linux.Libc.Release.{Released, free_ptr_lem}
use ocean_linux.Libc.Realloc.{Reallocs, realloc_lem}
use ocean_linux.Libc.{Mem}
use ocean_linux.Libc.Strings.{strncpy, copy_chars, zero_fill}
use ocean_linux.Libc.Alloc.{Mallocs, malloc_lem}
use ocean_linux.Libc.Heap.{
  malloc, heap_init, find_fit, Heap, trim, free_ptr, align_up_size, realloc,
}
use ocean_linux.Libc.Memory.{memmove, copy_up, copy_down}
use ocean_linux.Libc.Copy.{StringAt, copied, memmove_lem, strncpy_lem}
use ocean_linux.Base.{
  ℕ, if◌then◌else◌, ◌≡◌, refl, ◌==◌, [], leb, false, Option, some, ◌&&◌, ◌∷◌, ◌^◌, ltb, true, ◌+◌,
  ◌-◌, arith, inr, get_or,
}

-- The heap after malloc(20) and malloc(100).
abbrev two_blocks : Heap
two_blocks = record {
  blocks =
      record { size = 32; free = false }
      ∷ record { size = 112; free = false }
      ∷ record { size = 130856; free = true }
      ∷ [];
  bytes = λ a. a;
}

abbrev fresh_heap : Heap
fresh_heap = record { blocks = []; bytes = λ a. 0 }

mallocs_two : (malloc (malloc fresh_heap 20).0 100).0.blocks ≡ two_blocks.blocks
unfolding malloc heap_init find_fit trim align_up_size
mallocs_two = refl

malloc_lem_example : Mallocs two_blocks 50 (malloc two_blocks 50).0 (malloc two_blocks 50).1
malloc_lem_example = malloc_lem two_blocks 50

-- A size near 2^64 is aligned to 0, and a pointer to no bytes is returned.
malloc_huge : (malloc two_blocks (2 ^ 64 - 1)).1 ≡ some 216
unfolding malloc find_fit trim align_up_size
malloc_huge = refl

free_ptr_lem_example :
    (after : Heap) × (free_ptr two_blocks (some 24) ≡ some after)
    × Released 0 24 two_blocks.blocks after.blocks
    × (after.bytes ≡ two_blocks.bytes)
free_ptr_lem_example = free_ptr_lem two_blocks 24 {n = 32} refl

-- The payload moves, since the block behind it is in use.
realloc_lem_example :
    (out : Heap × Option ℕ) × (realloc two_blocks (some 24) 200 ≡ some out)
    × Reallocs two_blocks 24 32 200 out.0 out.1
realloc_lem_example =
    realloc_lem two_blocks 24 32 200 refl (λ e. absurd (omega (arith, e))) (omega arith)

-- "ab" at 10, and 7 elsewhere.
abbrev ab_at_10 : Mem
ab_at_10 a = if a == 10 then 97 else if a == 11 then 98 else if a == 12 then 0 else 7

ab_at_10-StringAt : StringAt ab_at_10 10 2
ab_at_10-StringAt = record { chars = λ i low q. ground (arith, low, q); nul = refl }

strncpy_lem_example : strncpy ab_at_10 20 10 4 24 ≡ (
    if leb 20 24 && ltb 24 (20 + 2)
    then ab_at_10 (10 + (24 - 20))
    else if leb 20 24 && leb 24 (20 + 4)
    then 0
    else ab_at_10 24)
strncpy_lem_example =
    strncpy_lem ab_at_10 20 10 4 2 ab_at_10-StringAt (omega arith) (inr (omega arith)) 24

-- The byte behind the buffer of four bytes at 20 is overwritten.
strncpy_overruns : strncpy ab_at_10 20 10 4 24 ≡ 0
unfolding strncpy copy_chars zero_fill
strncpy_overruns = refl

memmove_lem_example : memmove ab_at_10 11 10 3 12 ≡ copied ab_at_10 11 10 3 12
memmove_lem_example = memmove_lem ab_at_10 11 10 3 12

moves_b : memmove ab_at_10 11 10 3 12 ≡ 98
unfolding memmove copy_up copy_down
moves_b = refl

-- " -0x1fZ" at 0.
abbrev hex_number : Mem
hex_number a = get_or (32 ∷ 45 ∷ 48 ∷ 120 ∷ 49 ∷ 102 ∷ 90 ∷ []) a 0

-- -31, read up to the Z.
reads_hex : strtol 10 hex_number 0 0 ≡ some (2 ^ 64 - 31, 6)
unfolding strtol skip_spaces isspace read_sign read_prefix read_digits digit_value isdigit isalpha
reads_hex = refl

reads_nothing : strtol 10 hex_number 6 10 ≡ some (0, 6)
unfolding strtol skip_spaces isspace read_sign read_prefix read_digits digit_value isdigit isalpha
reads_nothing = refl
