-- ===== src/Fd/Calls/Pipe.antt =====
-- A pipe is a bounded queue of bytes.
use house.Prelude.{
  ℕ, ◌-◌, ◌≤◌, ◌<◌, min, ◌≡◌, refl, ap, ◌∙◌, ◌≢◌, ◌⊎◌, inl, inr, true, List, [], ◌∷◌, ◌++◌, arith,
  ℤ, pos, length, take, drop, length-append, length-take, length-drop,
}
use house.Fd.{
  pipe_r, pipe_w, FdEntry, Sys, fake_fd_n, pipe_cap, entry, put, Payload, nothing, pipe_bytes,
}
use house.Fd.Calls.{write_peer, write, read}
use house.Fd.Calls.Table.{IsFull, entry-put_self, entry-put_ne, length-put, fd_of, fd_slot-fd_of}

-- Slots `w` and `r` are the two ends of one pipe.
pub record Linked (s : Sys) (w r : ℕ) : Type 0 where
  pub full : IsFull s
  pub w_in : w < fake_fd_n
  pub r_in : r < fake_fd_n
  pub writes : (entry s w).kind ≡ pipe_w
  pub reads : (entry s r).kind ≡ pipe_r
  pub to : (entry s w).peer ≡ fd_of r
  pub bounded : length (entry s r).bytes ≤ pipe_cap

-- the queue: what is accepted is the part that fits
abbrev pub enqueue : List ℕ → List ℕ → ℕ × List ℕ
enqueue q xs = let k = min (length xs) (pipe_cap - length q) in (k, q ++ take k xs)

abbrev pub dequeue : List ℕ → ℕ → List ℕ × List ℕ
dequeue q n = let k = min (length q) n in (take k q, drop k q)

write_peer_lem :
    (s : Sys) (r : ℕ) (xs : List ℕ)
    → (entry s r).kind ≡ pipe_r
    → write_peer r xs s ≡ (
      pos (enqueue (entry s r).bytes xs).0,
      put s r (record (entry s r) { bytes = (enqueue (entry s r).bytes xs).1 }),
    )
unfolding write_peer
write_peer_lem s r xs e = ground arith

-- A write to a pipe appends the part that fits to the bytes of the read end, and returns how many
-- bytes that is.
pub write_lem :
    {s : Sys} {w r : ℕ} (xs : List ℕ)
    → Linked s w r
    → write (fd_of w) xs s ≡ (
      pos (enqueue (entry s r).bytes xs).0,
      put s r (record (entry s r) { bytes = (enqueue (entry s r).bytes xs).1 }),
    )
unfolding write
write_lem {s} {w} {r} xs l =
    rw (fd_slot-fd_of w l.w_in, write, l.writes, l.to, fd_slot-fd_of r l.r_in)
      (write_peer_lem s r xs l.reads)

-- what a payload holds of a pipe
abbrev pub bytes_of : Payload → List ℕ
bytes_of (pipe_bytes bs) = bs
bytes_of _ = []

read_full :
    (now : ℕ) (s : Sys) (r n : ℕ)
    → r < fake_fd_n
    → (entry s r).kind ≡ pipe_r
    → (entry s r).bytes ≢ []
    → read now (fd_of r) true n s ≡ (
      pos (min (length (entry s r).bytes) n),
      pipe_bytes (dequeue (entry s r).bytes n).0,
      put s r (record (entry s r) { bytes = (dequeue (entry s r).bytes n).1 }),
    )
unfolding read
read_full now s r n h e ne = rw (fd_slot-fd_of r h, read) (ground arith)

read_empty :
    (now : ℕ) (s : Sys) (r n : ℕ)
    → r < fake_fd_n
    → (entry s r).kind ≡ pipe_r
    → (entry s r).bytes ≡ []
    → read now (fd_of r) true n s ≡ (pos 0, nothing, s)
unfolding read
read_empty now s r n h e emp = rw (fd_slot-fd_of r h, read) (ground arith)

abbrev pub with_bytes : Sys → ℕ → List ℕ → Sys
with_bytes s r q = put s r (record (entry s r) { bytes = q })

with_bytes-Linked :
    (s : Sys) (w r : ℕ) (q : List ℕ)
    → Linked s w r
    → length q ≤ pipe_cap
    → Linked (with_bytes s r q) w r × ((entry (with_bytes s r q) r).bytes ≡ q)
with_bytes-Linked s w r q l h = (
  record {
    full = length-put s r e ∙ l.full;
    w_in = l.w_in;
    r_in = l.r_in;
    writes = rw other l.writes;
    reads = ap (λ (x : FdEntry). x.kind) same ∙ l.reads;
    to = rw other l.to;
    bounded = rw same h;
  },
  ap (λ (x : FdEntry). x.bytes) same,
)
  where
    e : FdEntry
    e = record (entry s r) { bytes = q }

    same : entry (put s r e) r ≡ e
    same = entry-put_self s r e (omega (arith, l.full, l.r_in))

    apart : r ≢ w
    apart h = ground (arith, l.writes, l.reads, h)

    other : entry (put s r e) w ≡ entry s w
    other = entry-put_ne s r w e apart

pub data PipeOp : Type 0 where
  send : List ℕ → PipeOp
  receive : ℕ → PipeOp

-- what the calls on the two ends return, in order
pub run_pipe : ℤ → ℤ → List PipeOp → Sys → List (ℤ × List ℕ)
run_pipe fw fr [] s = []
run_pipe fw fr (send xs ∷ ops) s = let (k, s') = write fw xs s in (k, []) ∷ run_pipe fw fr ops s'
run_pipe fw fr (receive n ∷ ops) s =
    let (k, p, s') = read 0 fr true n s in (k, bytes_of p) ∷ run_pipe fw fr ops s'

-- the same on a queue of at most `pipe_cap` bytes
pub run_queue : List PipeOp → List ℕ → List (ℤ × List ℕ)
run_queue [] q = []
run_queue (send xs ∷ ops) q = (pos (enqueue q xs).0, []) ∷ run_queue ops (enqueue q xs).1
run_queue (receive n ∷ ops) q =
    (pos (min (length q) n), (dequeue q n).0) ∷ run_queue ops (dequeue q n).1

length-enqueue-le : (q xs : List ℕ) → length q ≤ pipe_cap → length (enqueue q xs).1 ≤ pipe_cap
length-enqueue-le q xs h =
    let k = min (length xs) (pipe_cap - length q) in
    omega (arith, length-append q (take k xs), length-take k xs)

length-dequeue-le : (q : List ℕ) (n : ℕ) → length q ≤ pipe_cap → length (dequeue q n).1 ≤ pipe_cap
length-dequeue-le q n h = omega (arith, length-drop (min (length q) n) q)

nil-cases : (q : List ℕ) → (q ≡ []) ⊎ (q ≢ [])
nil-cases [] = inl refl
nil-cases (x ∷ q) = inr (λ e. cc)

min-zero : (n : ℕ) → min 0 n ≡ 0
min-zero n = omega arith

-- A read of a pipe takes the oldest bytes that the caller has room for, and leaves the others.
pub read_lem :
    (n : ℕ) {s : Sys} {w r : ℕ}
    → Linked s w r
    → (p : Payload) × (s' : Sys) × (read 0 (fd_of r) true n s
        ≡ (pos (min (length (entry s r).bytes) n), p, s'))
      × (bytes_of p ≡ (dequeue (entry s r).bytes n).0)
      × Linked s' w r
      × ((entry s' r).bytes ≡ (dequeue (entry s r).bytes n).1)
read_lem n {s} {w} {r} l = elim (nil-cases (entry s r).bytes) [
  | inl e ↦ (
    nothing,
    s,
    read_empty 0 s r n l.r_in l.reads e ∙ rw (e, min-zero n),
    rw (e, min-zero n),
    l,
    rw (e, min-zero n),
  )
  | inr ne ↦
      let q = (dequeue (entry s r).bytes n).1 in
      let (l', e') =
        with_bytes-Linked s w r q l (length-dequeue-le (entry s r).bytes n l.bounded) in
      (pipe_bytes (dequeue (entry s r).bytes n).0, with_bytes s r q, full_step ne, refl, l', e')
]
  where
    full_step :
        (entry s r).bytes ≢ []
        → read 0 (fd_of r) true n s ≡ (
          pos (min (length (entry s r).bytes) n),
          pipe_bytes (dequeue (entry s r).bytes n).0,
          with_bytes s r (dequeue (entry s r).bytes n).1,
        )
    full_step ne = read_full 0 s r n l.r_in l.reads ne

-- For the two ends of a pipe, no sequence of writes and reads tells it from a queue of at most
-- 1024 bytes: what is read is what was accepted, in order.
pub run_pipe_refines :
    (ops : List PipeOp) {s : Sys} {w r : ℕ}
    → Linked s w r
    → run_pipe (fd_of w) (fd_of r) ops s ≡ run_queue ops (entry s r).bytes
unfolding run_pipe run_queue
run_pipe_refines [] l = refl
run_pipe_refines (send xs ∷ ops) {s} {w} {r} l =
    let q = (enqueue (entry s r).bytes xs).1 in
    let (l', e) = with_bytes-Linked s w r q l (length-enqueue-le (entry s r).bytes xs l.bounded) in
    rw (write_lem xs l, run_pipe_refines ops l', e)
run_pipe_refines (receive n ∷ ops) {s} {w} {r} l =
    let (p, s', e, b, l', q) = read_lem n l in rw (e, run_pipe_refines ops l', b, q)
