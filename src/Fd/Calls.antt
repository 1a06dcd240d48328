-- ===== src/Fd/Calls.antt =====
-- `write`, `read`, `pipe`, `close` and the event counters of sys/mod.rs.
pub mod Table
pub mod Pipe
pub mod Create
pub mod Event
use house.Prelude.{
  ℕ, zero, suc, ◌+◌, ◌-◌, ◌*◌, ◌/◌, ◌%◌, ◌^◌, ◌≤◌, ◌<◌, min, max, ◌≡◌, refl, sym, ap, subst, ◌∙◌,
  ◌≢◌, ◌⊎◌, inl, inr, ◌↔◌, Bool, true, false, not, ◌&&◌, ◌||◌, Option, none, some, List, [], ◌∷◌,
  ◌++◌, map, arith, ltb, leb, ◌==◌, if◌then◌else◌, ltb→lt, lt→ltb, leb→le, le→leb, ==_iff, ==_refl,
  ==_ne, Bool-cases, Option-cases, all_below, all_below_sound, is_some, ℤ, pos, negsuc, neg, eq_ℤ,
  eq_ℤ_iff, as_u64, length, get_elem?, get_or, set, take, drop, replicate, length-append,
  length-take, length-drop, length-set, get_or-set_self, get_or-set_ne,
}
use house.Fd.{
  FdKind, free, timer, pipe_r, pipe_w, event, epoll, Watched, FdEntry, free_entry, Sys,
  fake_fd_base, fake_fd_n, pipe_cap, fd_slot, entry, put, fail, first_free, two_free, le_u64,
  Payload, nothing, pipe_bytes, number, open_slot,
}
use house.Fd.Timer.{read_timer}

-- what `write` does to the read end at slot `j`
pub write_peer : ℕ → List ℕ → Sys → ℤ × Sys
write_peer j buf s =
    let peer = entry s j in
    elim peer.kind [
      | pipe_r ↦
          let k = min (length buf) (pipe_cap - length peer.bytes) in
          (pos k, put s j (record peer { bytes = peer.bytes ++ take k buf }))
      | _ ↦ (neg 1, s)
    ]

-- the end of `write`: the console descriptors, or EBADF
pub write_console : ℤ → List ℕ → Sys → ℤ × Sys
write_console fd buf s =
    if eq_ℤ fd (pos 1) || eq_ℤ fd (pos 2)
    then (pos (length buf), record s { uart = s.uart ++ buf })
    else fail 9 s

-- `buf` holds the `n` bytes that the caller passes.
pub write : ℤ → List ℕ → Sys → ℤ × Sys
unfolding write_peer write_console
write fd buf s = elim (fd_slot fd) [
  | none ↦ write_console fd buf s
  | some i ↦
      let e = entry s i in
      elim e.kind [
        | pipe_w ↦ elim (fd_slot e.peer) [ none ↦ (neg 1, s) | some j ↦ write_peer j buf s ]
        | event ↦
            if leb 8 (length buf)
            then (pos 8, put s i (record e { ev_cnt = (e.ev_cnt + le_u64 buf) % 2 ^ 64 }))
            else (pos 0, s)
        | _ ↦ write_console fd buf s
      ]
]

-- `there` tells whether `buf` is not null.
pub read : ℕ → ℤ → Bool → ℕ → Sys → ℤ × Payload × Sys
read now fd there n s = elim (fd_slot fd) [
  | none ↦ (pos 0, nothing, s)
  | some i ↦
      let e = entry s i in
      elim e.kind [
        | timer ↦ if not there || ltb n 8 then (pos 0, nothing, s) else read_timer now fd i s
        | pipe_r ↦
            if (length e.bytes == 0) || not there
            then (pos 0, nothing, s)
            else let k = min (length e.bytes) n in
              (pos k, pipe_bytes (take k e.bytes), put s i (record e { bytes = drop k e.bytes }))
        | event ↦
            if not there || ltb n 8
            then (pos 0, nothing, s)
            else if e.ev_cnt == 0
            then (neg 1, nothing, record s { errno = 11 })
            else (pos 8, number e.ev_cnt, put s i (record e { ev_cnt = 0 }))
        | _ ↦ (pos 0, nothing, s)
      ]
]

-- The result is the pair of descriptors on success; `there` tells whether `fds` is not null.
pub pipe : Bool → Sys → Option (ℤ × ℤ) × Sys
unfolding two_free
pipe there s =
    if there
    then elim (two_free s.fdt 0) [
      | none ↦ (none, record s { errno = 23 })
      | some (r, w) ↦ (
        some (pos (fake_fd_base + r), pos (fake_fd_base + w)),
        put
            (put s r
              (record (entry s r) { kind = pipe_r; bytes = []; peer = pos (fake_fd_base + w) }))
            w (record (entry s w) { kind = pipe_w; bytes = []; peer = pos (fake_fd_base + r) }),
      )
    ]
    else (none, record s { errno = 14 })

-- Always 0.
unfoldable pub close : ℤ → Sys → Sys
close fd s = elim (fd_slot fd) [
  | none ↦ s
  | some i ↦
      let e = entry s i in
      elim e.kind [
        | free ↦ s
        | _ ↦ put s i (record e { kind = free; bytes = []; ev_cnt = 0; watches = [] })
      ]
]

-- `initval` is a `u32`.
pub eventfd : ℕ → Sys → ℤ × Sys
unfolding first_free
eventfd initval s = open_slot (λ e. record e { kind = event; ev_cnt = initval; bytes = [] }) s

pub eventfd_write : ℤ → ℕ → Sys → ℤ × Sys
eventfd_write fd value s = elim (fd_slot fd) [
  | none ↦ fail 9 s
  | some i ↦
      let e = entry s i in
      elim e.kind [
        | event ↦ (pos 0, put s i (record e { ev_cnt = (e.ev_cnt + value) % 2 ^ 64 }))
        | _ ↦ fail 9 s
      ]
]

-- The second result is the count; `there` tells whether `value` is not null.
pub eventfd_read : ℤ → Bool → Sys → ℤ × ℕ × Sys
eventfd_read fd there s =
    if there
    then elim (fd_slot fd) [
      | none ↦ (neg 1, 0, record s { errno = 9 })
      | some i ↦
          let e = entry s i in
          elim e.kind [
            | event ↦
                if e.ev_cnt == 0
                then (neg 1, 0, record s { errno = 11 })
                else (pos 0, e.ev_cnt, put s i (record e { ev_cnt = 0 }))
            | _ ↦ (neg 1, 0, record s { errno = 9 })
          ]
    ]
    else (neg 1, 0, record s { errno = 14 })

unfoldable pub house_fd_pipe_readable : ℤ → Sys → Bool
house_fd_pipe_readable fd s = elim (fd_slot fd) [
  | none ↦ false
  | some i ↦ let e = entry s i in elim e.kind [ pipe_r ↦ ltb 0 (length e.bytes) | _ ↦ false ]
]
