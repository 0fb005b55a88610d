-- ===== src/Libc.antt =====
-- lib/libc/src: the C library of the programs in user space. Memory is a function from addresses to
-- bytes.
pub mod Memory
pub mod Strings
pub mod Copy
pub mod Heap
pub mod Numbers
pub mod Blocks
pub mod Alloc
pub mod Release
pub mod Resize
pub mod Realloc
mod Tests
use ocean_linux.Base.{ℕ, if◌then◌else◌, ◌==◌}

abbrev pub Mem : Type 0
Mem = ℕ → ℕ

-- *p = c
abbrev pub store : Mem → ℕ → ℕ → Mem
store m p c a = if p == a then c else m a
