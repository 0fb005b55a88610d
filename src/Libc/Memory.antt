-- ===== src/Libc/Memory.antt =====
-- lib/libc/src/string.c: the functions on blocks of memory. A counted loop recurs on the rounds that
-- are left.
use ocean_linux.Libc.{Mem, store}
use ocean_linux.Base.{ℕ, Option, suc, if◌then◌else◌, ltb, none, ◌+◌, ◌%◌, not, zero, ◌==◌, some}

-- *d++ = *s++, n times.
unfoldable pub copy_up : Mem → ℕ → ℕ → ℕ → Mem
copy_up m d s zero = m
copy_up m d s (suc n) = copy_up (store m d (m s)) (d + 1) (s + 1) n

-- *--d = *--s, n times, from the ends.
unfoldable pub copy_down : Mem → ℕ → ℕ → ℕ → Mem
copy_down m d s zero = m
copy_down m d s (suc n) = copy_down (store m (d + n) (m (s + n))) d s n

unfoldable pub memcpy : Mem → ℕ → ℕ → ℕ → Mem
unfolding copy_up
memcpy m dest src n = copy_up m dest src n

unfoldable pub memmove : Mem → ℕ → ℕ → ℕ → Mem
unfolding copy_up copy_down
memmove m dest src n = if ltb dest src then copy_up m dest src n else copy_down m dest src n

unfoldable pub memset : Mem → ℕ → ℕ → ℕ → Mem
memset m p c zero = m
memset m p c (suc n) = memset (store m p (c % 256)) (p + 1) c n

-- Less than, equal and greater than zero: the two bytes that are subtracted.
unfoldable pub memcmp : Mem → ℕ → ℕ → ℕ → ℕ × ℕ
memcmp m p1 p2 zero = (0, 0)
memcmp m p1 p2 (suc n) =
    let rest = memcmp m (p1 + 1) (p2 + 1) n in if not (m p1 == m p2) then (m p1, m p2) else rest

unfoldable pub memchr : Mem → ℕ → ℕ → ℕ → Option ℕ
memchr m p c zero = none
memchr m p c (suc n) = let rest = memchr m (p + 1) c n in if m p == c % 256 then some p else rest
