-- ===== src/Fd/Calls/Create.antt =====
-- What `pipe` creates, and what a closed end leaves behind.
use house.Prelude.{
  ℕ, ◌≤◌, ◌<◌, ◌≡◌, refl, sym, ap, ◌∙◌, ◌≢◌, ◌⊎◌, inl, inr, true, Option, none, some, [], arith, ℤ,
}
use house.Fd.{free, pipe_r, pipe_w, FdEntry, Sys, fake_fd_n, entry, put, is_free, two_free}
use house.Fd.Calls.{pipe, close}
use house.Fd.Calls.Table.{
  IsFull, entry-put_self, entry-put_ne, length-put, fd_of, fd_slot-fd_of, count_free, FoundTwo,
  two_free-FoundTwo, minus_zero,
}
use house.Fd.Calls.Pipe.{Linked}

-- What `pipe` returns: two slots that were free, now the two ends of one empty pipe, with all other
-- slots as they were; or ENFILE, when fewer than two slots are free.
abbrev pub Created : Sys → Option (ℤ × ℤ) × Sys → Type 0
Created s (res, s') =
    ((count_free s.fdt ≤ 1) × (res ≡ none) × (s' ≡ record s { errno = 23 }))
    ⊎ ((w : ℕ) × (r : ℕ) × (res ≡ some (fd_of r, fd_of w))
        × (is_free (entry s r).kind ≡ true)
        × (is_free (entry s w).kind ≡ true)
        × Linked s' w r
        × ((entry s' r).bytes ≡ [])
        × ((j : ℕ) → r ≢ j → w ≢ j → entry s' j ≡ entry s j))

abbrev made : Sys → ℕ → ℕ → Sys
made s r w =
    put (put s r (record (entry s r) { kind = pipe_r; bytes = []; peer = fd_of w })) w
      (record (entry s w) { kind = pipe_w; bytes = []; peer = fd_of r })

made-Linked :
    (s : Sys) (r w : ℕ)
    → IsFull s
    → r < w
    → w < fake_fd_n
    → Linked (made s r w) w r × ((entry (made s r w) r).bytes ≡ [])
made-Linked s r w full lt h = (
  record {
    full = length-put s₁ w e_w ∙ length-put s r e_r ∙ full;
    w_in = h;
    r_in = omega arith;
    writes = ap (λ (x : FdEntry). x.kind) at_w;
    reads = ap (λ (x : FdEntry). x.kind) at_r;
    to = ap (λ (x : FdEntry). x.peer) at_w;
    bounded = rw at_r (omega arith);
  },
  ap (λ (x : FdEntry). x.bytes) at_r,
)
  where
    e_r : FdEntry
    e_r = record (entry s r) { kind = pipe_r; bytes = []; peer = fd_of w }

    e_w : FdEntry
    e_w = record (entry s w) { kind = pipe_w; bytes = []; peer = fd_of r }

    s₁ : Sys
    s₁ = put s r e_r

    at_w : entry (made s r w) w ≡ e_w
    at_w = entry-put_self s₁ w e_w (omega (arith, length-put s r e_r, full))

    at_r : entry (made s r w) r ≡ e_r
    at_r = entry-put_ne s₁ w r e_w (λ e. omega arith) ∙ entry-put_self s r e_r (omega (arith, full))

made_others : (s : Sys) (r w j : ℕ) → r ≢ j → w ≢ j → entry (made s r w) j ≡ entry s j
made_others s r w j nr nw =
    let e_r = record (entry s r) { kind = pipe_r; bytes = []; peer = fd_of w } in
    let e_w = record (entry s w) { kind = pipe_w; bytes = []; peer = fd_of r } in
    entry-put_ne (put s r e_r) w j e_w nw ∙ entry-put_ne s r j e_r nr

-- On a table of full size, `pipe` makes two slots that were free the ends of one pipe, which is
-- empty, and leaves all other slots as they were; or it fails with ENFILE, when fewer than two
-- slots are free.
pub pipe-Created : (s : Sys) → IsFull s → Created s (pipe true s)
unfolding pipe
pipe-Created s full = go (two_free s.fdt 0) (two_free-FoundTwo s.fdt 0)
  where
    go :
        (o : Option (ℕ × ℕ))
        → FoundTwo s.fdt 0 o
        → Created s (elim o [
          | none ↦ (none, record s { errno = 23 })
          | some (r, w) ↦ (some (fd_of r, fd_of w), made s r w)
        ])
    go none h = inl (h, refl, refl)
    go (some (r, w)) (a, lt, b, f, g, n) =
        let (l, e) = made-Linked s r w full lt (omega (arith, full)) in
        inr
          (w, r, refl, (rw (minus_zero r) at f), (rw (minus_zero w) at g), l, e, made_others s r w)

abbrev closed : Sys → ℕ → Sys
closed s r = put s r (record (entry s r) { kind = free; bytes = []; ev_cnt = 0; watches = [] })

close_lem :
    (s : Sys) (r : ℕ) → r < fake_fd_n → (entry s r).kind ≡ pipe_r → close (fd_of r) s ≡ closed s r
unfolding close
close_lem s r h e = rw (fd_slot-fd_of r h, close) (ground arith)

pipe-made : (s : Sys) (r w : ℕ) → two_free s.fdt 0 ≡ some (r, w) → (pipe true s).1 ≡ made s r w
unfolding pipe
pipe-made s r w e = rw (e, pipe)

-- When the read end `r` of a pipe is closed and the next `pipe` takes its slot again, with the write
-- end at `v`, the old write end `w` still leads to `r`: what is written to it is read from the new
-- pipe.
pub stale_writer :
    (s : Sys) (w r v : ℕ)
    → Linked s w r
    → two_free (close (fd_of r) s).fdt 0 ≡ some (r, v)
    → let s' = (pipe true (close (fd_of r) s)).1 in
      (w ≢ v) × Linked s' v r × Linked s' w r × ((entry s' r).bytes ≡ [])
stale_writer s w r v l e =
    let (new, empty) = made-Linked t r v t_full (found.1) (omega (arith, found.2, t_full)) in
    rw (close_lem s r l.r_in l.reads, pipe-made t r v again)
      (
        w-ne-v,
        new,
        record {
          full = new.full;
          w_in = l.w_in;
          r_in = l.r_in;
          writes = ap (λ (x : FdEntry). x.kind) old ∙ l.writes;
          reads = new.reads;
          to = ap (λ (x : FdEntry). x.peer) old ∙ l.to;
          bounded = new.bounded;
        },
        empty,
      )
  where
    t : Sys
    t = closed s r

    e_r : FdEntry
    e_r = record (entry s r) { kind = free; bytes = []; ev_cnt = 0; watches = [] }

    r-ne-w : r ≢ w
    r-ne-w h = ground (arith, l.writes, l.reads, h)

    kept : entry t w ≡ entry s w
    kept = entry-put_ne s r w e_r r-ne-w

    again : two_free t.fdt 0 ≡ some (r, v)
    again = rw (close_lem s r l.r_in l.reads) at e

    t_full : IsFull t
    t_full = length-put s r e_r ∙ l.full

    found : FoundTwo t.fdt 0 (some (r, v))
    found = rw again at (two_free-FoundTwo t.fdt 0)

    w-ne-v : w ≢ v
    w-ne-v h =
        let f : is_free (entry t v).kind ≡ true = rw (minus_zero v) at found.4 in
        let g : is_free (entry t w).kind ≡ true = rw h f in ground (arith, g, kept, l.writes)

    old : entry (made t r v) w ≡ entry s w
    old = made_others t r v w r-ne-w (λ h. w-ne-v (sym h)) ∙ kept
