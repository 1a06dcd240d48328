-- ===== src/Irq.antt =====
-- rust/crates/house-hal-aarch64/src/irq.rs: the ring between the interrupt handler and the kernel.
-- The handler pushes, the kernel pops; head and tail are `u32` counters that wrap.
pub mod Laws
pub mod Queue
use house.Prelude.{
  ℕ, zero, suc, ◌+◌, ◌-◌, ◌*◌, ◌/◌, ◌%◌, ◌^◌, ◌≤◌, ◌<◌, min, max, ◌≡◌, refl, sym, ap, subst, ◌∙◌,
  ◌≢◌, ◌⊎◌, inl, inr, ◌↔◌, Bool, true, false, not, ◌&&◌, ◌||◌, Option, none, some, List, [], ◌∷◌,
  ◌++◌, map, arith, ltb, leb, ◌==◌, if◌then◌else◌, ltb→lt, lt→ltb, leb→le, le→leb, ==_iff, ==_refl,
  ==_ne, Bool-cases, Option-cases, all_below, all_below_sound, is_some, ℤ, pos, negsuc, neg, eq_ℤ,
  eq_ℤ_iff, as_u64, length, get_elem?, get_or, set, take, drop, replicate, length-append,
  length-take, length-drop, length-set, get_or-set_self, get_or-set_ne,
}
use house.Fd.{
  FdKind, free, timer, pipe_r, pipe_w, event, epoll, Watched, FdEntry, free_entry, Sys,
  fake_fd_base, fake_fd_n, pipe_cap, fd_slot, entry, put, fail, is_free, first_free, two_free,
  le_u64, Payload, nothing, pipe_bytes, number,
}
use house.Fd.Calls.{
  write_peer, write_console, write, read, pipe, close, eventfd, eventfd_write, eventfd_read,
  house_fd_pipe_readable,
}

abbrev pub ring_sz : ℕ
ring_sz = 256

-- The statics of the file. `acks` lists the virtio slots acknowledged at their device.
pub record Ring : Type 0 where
  pub buf : List ℕ
  pub head : ℕ
  pub tail : ℕ
  pub drops : ℕ
  pub pipe_r : ℤ
  pub pipe_w : ℤ
  pub acks : List ℕ
  pub fds : Sys

abbrev pub is_negative : ℤ → Bool
is_negative (pos n) = false
is_negative (negsuc n) = true

-- The slots' interrupts are 48..80; `status` is what `virtio_transport_interrupt_status` reads.
unfoldable pub ack_source : (ℕ → ℕ) → ℕ → Ring → Ring
ack_source status intid r =
    if (leb 48 intid && ltb intid 80) && (status (intid - 48) % 2 == 1)
    then record r { acks = r.acks ++ ((intid - 48) ∷ []) }
    else r

-- the byte that wakes the reader of the pipe
unfoldable pub wake : ℕ → Ring → Ring
wake intid r =
    if is_negative r.pipe_w
    then r
    else record r { fds = (write r.pipe_w ((intid % 2 ^ 8) ∷ []) r.fds).1 }

unfoldable pub house_irq_push : (ℕ → ℕ) → ℕ → Ring → Ring
unfolding ack_source wake
house_irq_push status intid r0 =
    let r = ack_source status intid r0 in
    if leb ring_sz ((r.head + 2 ^ 32 - r.tail) % 2 ^ 32)
    then record r { drops = (r.drops + 1) % 2 ^ 32 }
    else wake intid
        (record r { buf = set r.buf (r.head % ring_sz) intid; head = (r.head + 1) % 2 ^ 32 })

-- `v as i32`
abbrev pub as_i32 : ℕ → ℤ
as_i32 v = if ltb v (2 ^ 31) then pos v else neg (2 ^ 32 - v)

unfoldable pub house_irq_pop : Ring → ℤ × Ring
house_irq_pop r =
    if r.tail == r.head
    then (neg 1, r)
    else (as_i32 (get_or r.buf (r.tail % ring_sz) 0), record r { tail = (r.tail + 1) % 2 ^ 32 })

unfoldable pub house_irq_pipe_fd : Ring → ℤ
house_irq_pipe_fd r = r.pipe_r

unfoldable pub house_irq_ring_drops : Ring → ℕ
house_irq_ring_drops r = r.drops
