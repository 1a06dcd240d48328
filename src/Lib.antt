-- ===== src/Lib.antt =====
-- The Rust half of the House kernel: the parts that keep state on behalf of the processes.
--
-- A process ("session") runs in EL0 under a page directory. Its system calls trap into the kernel,
-- which checks the memory that a call names and parks the session: its frame goes into the table of
-- sessions and a byte into a pipe, which wakes the Haskell kernel. That takes the request, serves it
-- and resumes the session. The timer parks a session in the same way when its quantum is over. For
-- each page directory the kernel keeps an ASID, a budget of demand pages and a mask of allowed
-- system calls, which are dropped when the directory is released. Pages come from one allocator.
--
-- - Fd and its children: rust/crates/house-libc/src/sys/mod.rs, the descriptor table FDT with
--   `write`, `read`, `pipe`, `close`, the event counters and the timers. The state is the record
--   Sys; a call returns the new state beside its result, and errno is a field.
-- - El0: rust/crates/house-hal-aarch64/src/svc.rs, the table EL0_TABLE. El0.Session has
--   registration and exit, El0.Park parking, resuming, fork and exec, El0.Sched the quantum. The
--   park pipe is a pipe of Fd. `house_resume_asm` shows as the frame that it is given.
-- - Svc: svc.rs again, the page walk, the checks of buffers and strings, the copies out of a
--   session's memory, the gates that decide whether a call parks, and the dispatch, which answers
--   the calls that do not. Svc.Ipc is rust/crates/house-hal-aarch64/src/ipc.rs. Memory is a
--   function from addresses to words.
-- - Fd.Epoll: the epoll sets of sys/mod.rs, maps from descriptors to events; `epoll_wait` is given
--   what each of its passes sees, the clock at and after its scan and the table.
-- - Malloc: rust/crates/house-libc/src/alloc.rs, the pool with its headers and the free list, over a
--   memory of bytes (Bytes). Malloc.Moves has the steps of a program that uses it.
-- - Vm: rust/crates/house-hal-aarch64/src/mm/vm.rs. Vm.Resv has the reservations and `mmap`, and
--   Vm.Tables the page tables, with `munmap`, `mprotect`, device windows and driver roots; its pages
--   come from Buddy.
-- - Threads: rust/crates/house-libc/src/threads/threads.rs, the run queues of the cores and the
--   queues of waiting threads of mutexes, both linked through the threads.
-- - Irq: rust/crates/house-hal-aarch64/src/irq.rs, the ring of interrupts from the handler to the
--   kernel, with the wake byte in a pipe of Fd.
-- - Buddy: rust/crates/house-hal-aarch64/src/buddy.rs, the page allocator with its free list
--   threaded through memory.
-- - Userspace: rust/crates/house-hal-aarch64/src/userspace.rs, the ASID cache, the page budgets, the
--   syscall masks and the release of a directory, with the driver roots of mm/vm.rs. The three
--   tables are lists of pairs (Keyed), the part of each array that is in use.
-- - Prelude: numbers, lists and return codes. Tests: the theorems at concrete states.
--
-- Numbers are natural numbers with the wrap-around of the source written out. Functions that return
-- 1 or 0 as a flag return a Bool here; null pointers are 0, `none` or a Bool. Locks, barriers and
-- `sev` have no counterpart: each call is one step. Six loops run on fuel: the pages of a user
-- buffer and those of a console write (17, since 65536 bytes touch at most 17 pages), the draining of
-- the park pipe (17 reads of 64 bytes, where a pipe holds 1024), the walk of the free list of malloc
-- (one more than the blocks of 24 bytes that fit into the pool), the release of reservations (their
-- number) and the lowest bit of an affinity (32 bits). The walk along a run queue stops after 65
-- threads, as it does in the source.
--
-- Not modelled: the writes into a session's memory, the trap handler, the rest of
-- threads.rs (slot reuse, condition variables, context switches), the registers of the
-- MMU, and the drivers, which are mostly register access; the Haskell kernel is the caller of what
-- is modelled.
pub mod Prelude
pub mod Keyed
pub mod Threads
pub mod Userspace
pub mod Fd
pub mod El0
pub mod Bytes
pub mod Malloc
pub mod Buddy
pub mod Irq
pub mod Vm
pub mod Svc
pub mod Tests
