-- ===== src/Tests/Epolls.antt =====
-- epoll: a set in slot 3 that watches the read end of a pipe, in slot 0, of which slot 1 is the write
-- end.
use house.Prelude.{
  ℕ, ◌<◌, ◌≡◌, refl, inr, true, some, List, [], ◌∷◌, ◌++◌, arith, pos, neg, length, replicate,
}
use house.Fd.{pipe_r, pipe_w, epoll, free_entry, Sys, fd_slot, put}
use house.Fd.Epoll.{ctl, fd_ready, scan, epoll_wait}
use house.Fd.Epoll.Control.{Controlled, ctl_lem}
use house.Fd.Epoll.Watch.{watch}
use house.Fd.Epoll.Wait.{first_ready, found_at, epoll_wait_lem, write-wakes}
use house.Fd.Calls.{write}
use house.Fd.Calls.Table.{fd_of}
use house.Fd.Calls.Pipe.{Linked}

abbrev watching : Sys
watching =
    put
      (put
        (put
          (record {
            fdt = replicate 256 free_entry;
            errno = 0;
            tick_interval_ns = 0;
            isr_active = true;
            isr_pending = 0 ∷ [];
            uart = [];
          })
          0 (record free_entry { kind = pipe_r; peer = fd_of 1 }))
        1 (record free_entry { kind = pipe_w; peer = fd_of 0 }))
      3
      (record free_entry {
        kind = epoll;
        watches = record { fd = fd_of 0; events = 1; token = 77 } ∷ [];
      })

ends : Linked watching 1 0
ends = record {
  full = refl;
  w_in = omega arith;
  r_in = omega arith;
  writes = refl;
  reads = refl;
  to = refl;
  bounded = omega arith;
}

quiet_at_first : found_at 3 4 (0, 1, watching) ≡ []
unfolding scan fd_ready fd_slot
quiet_at_first = refl

ctl_lem_example :
    Controlled
      (pos 1)
      (pos 9)
      (some (1, 5))
      (record { fd = pos 3; events = 1; token = 77 } ∷ [])
      (ctl (pos 1) (pos 9) (some (1, 5)) (record { fd = pos 3; events = 1; token = 77 } ∷ []))
unfolding watch
ctl_lem_example =
    ctl_lem (pos 1) (pos 9) (some (1, 5)) (record { fd = pos 3; events = 1; token = 77 } ∷ [])
      ((refl, tt), omega arith)

epoll_wait_lem_example :
    epoll_wait (fd_of 3) (pos 4) (pos 1) 0 1 watching ([] ++ (2000000, 2000001, watching) ∷ []) ≡ (
      let found = first_ready 3 4 (2000000, 2000001, watching) in
      (some (pos (length found), found), watching))
epoll_wait_lem_example =
    epoll_wait_lem 3 3 (pos 1) 0 1 watching [] (2000000, 2000001, watching) [] (omega arith) refl
      (λ e. cc e) quiet_at_first tt (inr refl)

write-wakes_example :
    (k : ℕ) × (found : List (ℕ × ℕ)) × (epoll_wait
        (fd_of 3)
        (pos 4)
        (neg 1)
        0
        1
        watching
        ([] ++ (5, 6, (write (fd_of 1) (7 ∷ []) watching).1) ∷ [])
      ≡ (some (pos k, found), watching))
    × (0 < k)
write-wakes_example =
    write-wakes 3 3 0 1 (neg 1) 0 1 watching watching [] 7 [] [] [] 1 77 [] 5 6 ends (omega arith)
      refl (λ e. omega (arith, e)) (λ e. cc e) quiet_at_first tt refl refl
