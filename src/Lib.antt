-- ===== src/Lib.antt =====
-- A verification library for Ocean, an x86_64 microkernel in C with its userspace servers.
--
-- The kernel manages physical pages (kernel/mm), capabilities and messages (kernel/ipc), threads
-- (kernel/sched) and processes (kernel/proc); servers and filesystem drivers run in user space and
-- exchange messages. Each component is modelled from its source file by a module of its name:
-- the state of the file's static variables or of its structures is a record, each C function is a
-- function of the same name that takes the state and returns the new one with the result, and a
-- result code or a NULL is an Option or a number, as each file's first comment says.
--
-- Base: lists with native indices, Boolean tests, the bits of numbers, arrays of 64-bit words.
-- Capability: kernel/ipc/capability.c, capability spaces.
-- MemBitmap: kernel/mm/bitmap.c, the bitmap of physical pages.
-- Buddy: kernel/mm/buddy.c, the buddy allocator of a zone of physical pages.
-- Protocol: include/ocean/ipc_proto.h, the result codes of the servers.
-- Vfs: servers/vfs/main.c, the file namespace: mounts and open files.
-- Ramfs: fs/ramfs/main.c, the file system in memory.
-- Sched: kernel/sched/core.c, the scheduler.
-- Vmm: kernel/mm/vmm.c and kernel/mm/uaccess.c, address spaces and the checks of user memory.
-- Ipc: kernel/ipc/message.c and kernel/ipc/endpoint.c, messages, calls and endpoints.
-- Libc: lib/libc/src/string.c and lib/libc/src/stdlib.c, memory, strings and the heap.
--
-- Numbers are natural numbers, with the wrap-around of a machine type written out where it can
-- occur. A counted loop recurs on the rounds that are left; the loop over the bits of a word takes
-- 64 rounds, which is the width of the word. Three kinds of loop take a number of rounds as fuel:
-- the check of a user range, for which one round more than there are areas is enough; the loops
-- to the end of a C string, which give none on a longer string; and schedule, which calls itself
-- again by way of preempt_enable as long as the running thread is flagged. A function that runs
-- under the spinlock of its state is one step, and a server handles one message at a time, so an
-- interleaving of calls is a sequence of steps. A function that gives its lock up is cut there; where
-- the parts are run in a row under the name of the function, its comment says so.
--
-- The parts meet in their data: a VFS request reaches a file system driver by a message, a message
-- is a rendezvous of two threads of the scheduler, an address space takes its pages from the page
-- allocators. Vmm takes page tables and allocators as an interface (Vmm.Memory); Ipc keeps of the
-- scheduler whether a thread may run.
--
-- Not modelled: assembly and hardware access (kernel/arch), boot, printing and dumps, and the
-- components that the manifest lists as such.
pub mod Base
pub mod Capability
pub mod MemBitmap
pub mod Buddy
pub mod Protocol
pub mod Vfs
pub mod Ramfs
pub mod Sched
pub mod Vmm
pub mod Ipc
pub mod Libc
