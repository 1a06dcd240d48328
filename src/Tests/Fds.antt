-- ===== src/Tests/Fds.antt =====
-- Descriptors: a fresh table, a pipe between the slots 0 and 1, and a counter in slot 2.
use house.Fd.Calls.Table.{fd_of}
use house.Prelude.{ℕ, ◌≡◌, refl, ◌≢◌, true, some, [], ◌∷◌, arith, replicate}
use house.Fd.{pipe_r, pipe_w, event, free_entry, Sys, fd_slot, entry, put, first_free, two_free}
use house.Fd.Calls.{pipe, close}
use house.Fd.Calls.Table.{fd_of}
use house.Fd.Calls.Pipe.{Linked, send, receive, run_pipe, run_queue, run_pipe_refines}
use house.Fd.Calls.Create.{stale_writer}
use house.Fd.Calls.Event.{IsCounter}

abbrev no_fds : Sys
no_fds = record {
  fdt = replicate 256 free_entry;
  errno = 0;
  tick_interval_ns = 0;
  isr_active = true;
  isr_pending = 0 ∷ 2 ∷ [];
  uart = [];
}

abbrev one_pipe : Sys
one_pipe =
    put
      (put (put no_fds 0 (record free_entry { kind = pipe_r; peer = fd_of 1; bytes = 7 ∷ [] })) 1
        (record free_entry { kind = pipe_w; peer = fd_of 0 }))
      2 (record free_entry { kind = event; ev_cnt = 5 })

linked : Linked one_pipe 1 0
linked = record {
  full = refl;
  w_in = omega arith;
  r_in = omega arith;
  writes = refl;
  reads = refl;
  to = refl;
  bounded = omega arith;
}

counter : IsCounter one_pipe 2
counter = record { full = refl; i_in = omega arith; counts = refl }

run_pipe_refines_example :
    run_pipe (fd_of 1) (fd_of 0) (send (1 ∷ 2 ∷ []) ∷ receive 2 ∷ receive 5 ∷ []) one_pipe
    ≡ run_queue (send (1 ∷ 2 ∷ []) ∷ receive 2 ∷ receive 5 ∷ []) (7 ∷ [])
run_pipe_refines_example = run_pipe_refines (send (1 ∷ 2 ∷ []) ∷ receive 2 ∷ receive 5 ∷ []) linked

taken_again : two_free (close (fd_of 0) one_pipe).fdt 0 ≡ some (0, 3)
unfolding two_free first_free close fd_slot
taken_again = refl

stale_writer_example :
    let s' = (pipe true (close (fd_of 0) one_pipe)).1 in
    let w : ℕ = 1 in (w ≢ 3) × Linked s' 3 0 × Linked s' 1 0 × ((entry s' 0).bytes ≡ [])
stale_writer_example = stale_writer one_pipe 1 0 3 linked taken_again
