-- ===== src/El0.antt =====
-- rust/crates/house-hal-aarch64/src/svc.rs: the table of EL0 sessions EL0_TABLE, the pipe that wakes
-- the kernel's park loop, and the state of the scheduler's quantum. The children have the operations.
pub mod Table
pub mod Session
pub mod Change
pub mod Park
pub mod Sched
use house.Prelude.{
  ℕ, zero, suc, ◌+◌, ◌-◌, ◌*◌, ◌/◌, ◌%◌, ◌^◌, ◌≤◌, ◌<◌, min, max, ◌≡◌, refl, sym, ap, subst, ◌∙◌,
  ◌≢◌, ◌⊎◌, inl, inr, ◌↔◌, Bool, true, false, not, ◌&&◌, ◌||◌, Option, none, some, List, [], ◌∷◌,
  ◌++◌, map, arith, ltb, leb, ◌==◌, if◌then◌else◌, ltb→lt, lt→ltb, leb→le, le→leb, ==_iff, ==_refl,
  ==_ne, Bool-cases, Option-cases, all_below, all_below_sound, is_some, ℤ, pos, negsuc, neg, eq_ℤ,
  eq_ℤ_iff, as_u64, length, get_elem?, get_or, set, take, drop, replicate, length-append,
  length-take, length-drop, length-set, get_or-set_self, get_or-set_ne,
}
use house.Fd.{
  FdKind, free, timer, pipe_r, pipe_w, event, epoll, Watched, FdEntry, free_entry, Sys,
  fake_fd_base, fake_fd_n, pipe_cap, fd_slot, entry, put, fail, is_free, first_free, two_free,
  le_u64, Payload, nothing, pipe_bytes, number,
}
use house.Fd.Calls.{
  write_peer, write_console, write, read, pipe, close, eventfd, eventfd_write, eventfd_read,
  house_fd_pipe_readable,
}

-- EL0_REQ_FAULT_KILL, EL0_REQ_PREEMPT and EL0_REQ_FAULT
abbrev pub req_fault_kill : ℕ
req_fault_kill = 0x1D

abbrev pub req_preempt : ℕ
req_preempt = 0x1E

abbrev pub req_fault : ℕ
req_fault = 0x1F

-- El0Slot. `save` has 112 words.
pub record Slot : Type 0 where
  pub pdir : ℕ
  pub save : List ℕ
  pub elr : ℕ
  pub sp_el0 : ℕ
  pub req : ℕ
  pub parked : Bool
  pub exit_code : ℤ
  pub exited : Bool
  pub fault_va : ℕ

abbrev pub save_words : ℕ
save_words = 112

-- `[0; 112]`
unfoldable pub zero_save : List ℕ
zero_save = replicate save_words 0

abbrev pub el0_free : Slot
el0_free = record {
  pdir = 0;
  save = zero_save;
  elr = 0;
  sp_el0 = 0;
  req = 0;
  parked = false;
  exit_code = pos 0;
  exited = false;
  fault_va = 0;
}

abbrev pub el0_n : ℕ
el0_n = 64

-- The statics of the file, as the core `core` (the low bits of MPIDR_EL1, below 32) sees them;
-- `current` is `current_pdir`. `fds` is the descriptor table that the park pipe stands in.
pub record El0 : Type 0 where
  pub table : List Slot
  pub current : ℕ
  pub user_exit_code : ℤ
  pub user_exited : Bool
  pub core : ℕ
  pub sched_left : List ℕ
  pub sched_quantum : ℕ
  pub sched_runnable : ℕ
  pub park_pipe_r : ℤ
  pub park_pipe_w : ℤ
  pub fds : Sys

-- the loop `for i in 0..EL0_N` up to the first slot of the key
unfoldable pub find_slot : ℕ → List Slot → ℕ → Option ℕ
find_slot key [] i = none
find_slot key (s ∷ ss) i = if s.pdir == key then some i else find_slot key ss (suc i)

-- the loop of `house_el0_clone_slot`, which runs to the last slot of the key
unfoldable pub find_last : ℕ → List Slot → ℕ → Option ℕ
find_last key [] i = none
find_last key (s ∷ ss) i = elim (find_last key ss (suc i)) [
  | none ↦ if s.pdir == key then some i else none
  | some j ↦ some j
]

abbrev pub slot : El0 → ℕ → Slot
slot e i = get_or e.table i el0_free

abbrev pub put_slot : El0 → ℕ → Slot → El0
put_slot e i s = record e { table = set e.table i s }

abbrev pub is_negative : ℤ → Bool
is_negative (pos n) = false
is_negative (negsuc n) = true

-- the two ends of the park pipe, if they can be made
abbrev pub made_pipe : Option (ℤ × ℤ) → El0 → El0
made_pipe none e = e
made_pipe (some (r, w)) e = record e { park_pipe_r = r; park_pipe_w = w }

unfoldable pub poke_write : El0 → El0
poke_write e =
    if is_negative e.park_pipe_w
    then e
    else let (k, fds) = write e.park_pipe_w (1 ∷ []) e.fds in record e { fds = fds }

-- The byte 1 is written to the park pipe, which the first call makes.
unfoldable pub poke_park : El0 → El0
unfolding poke_write
poke_park e =
    if is_negative e.park_pipe_w
    then (let (ends, fds) = pipe true e.fds in poke_write (made_pipe ends (record e { fds = fds })))
    else poke_write e

unfoldable pub house_el0_park_pipe_fd : El0 → ℤ × El0
house_el0_park_pipe_fd e =
    if is_negative e.park_pipe_r
    then (let (ends, fds) = pipe true e.fds in
        let e' = made_pipe ends (record e { fds = fds }) in (e'.park_pipe_r, e'))
    else (e.park_pipe_r, e)

unfoldable pub house_el0_park_pipe_readable : ℤ → El0 → Bool
house_el0_park_pipe_readable fd e = house_fd_pipe_readable fd e.fds

abbrev pub is_positive : ℤ → Bool
is_positive (pos n) = ltb 0 n
is_positive (negsuc n) = false

-- `while read(...) > 0`, at most `fuel` times
pub drain_from : ℕ → ℤ → Sys → Sys
drain_from zero fd fds = fds
drain_from (suc fuel) fd fds =
    let (k, p, fds') = read 0 fd true 64 fds in
    let rest = drain_from fuel fd fds' in if is_positive k then rest else fds'

-- A pipe of 1024 bytes is empty after 16 reads of 64 bytes, and the next one returns 0.
unfoldable pub house_el0_park_pipe_drain : El0 → El0
unfolding drain_from
house_el0_park_pipe_drain e =
    if is_negative e.park_pipe_r then e else record e { fds = drain_from 17 e.park_pipe_r e.fds }

-- the loop that parks the slot of the current directory and wakes the kernel
unfoldable pub park_current : (Slot → Slot) → El0 → Bool × El0
unfolding find_slot
park_current f e = if e.current == 0 then (false, e) else elim (find_slot e.current e.table 0) [
  | some i ↦ (true, poke_park (put_slot e i (f (slot e i))))
  | none ↦ (false, e)
]
