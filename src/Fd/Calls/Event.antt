-- ===== src/Fd/Calls/Event.antt =====
-- An event counter adds up what is written until it is read.
use house.Prelude.{
  ℕ, ◌+◌, ◌%◌, ◌^◌, ◌<◌, ◌≡◌, refl, ap, ◌∙◌, ◌≢◌, ◌⊎◌, inl, inr, true, List, [], ◌∷◌, arith, ◌==◌,
  ==_iff, Bool-cases, ℤ, pos, neg,
}
use house.Fd.{event, FdEntry, Sys, fake_fd_n, entry, put}
use house.Fd.Calls.{eventfd_write, eventfd_read}
use house.Fd.Calls.Table.{IsFull, entry-put_self, length-put, fd_of, fd_slot-fd_of}

-- a live event counter at slot `i`
pub record IsCounter (s : Sys) (i : ℕ) : Type 0 where
  pub full : IsFull s
  pub i_in : i < fake_fd_n
  pub counts : (entry s i).kind ≡ event

eventfd_write_lem :
    {s : Sys} {i : ℕ} (v : ℕ)
    → IsCounter s i
    → eventfd_write (fd_of i) v s
      ≡ (pos 0, put s i (record (entry s i) { ev_cnt = ((entry s i).ev_cnt + v) % 2 ^ 64 }))
unfolding eventfd_write
eventfd_write_lem {s} {i} v c =
    rw (fd_slot-fd_of i c.i_in, eventfd_write) (ground (arith, c.counts))

-- writes of the values, one after the other
pub post : ℤ → List ℕ → Sys → Sys
post fd [] s = s
post fd (v ∷ vs) s = post fd vs (eventfd_write fd v s).1

unfoldable pub total : List ℕ → ℕ
total [] = 0
total (v ∷ vs) = v + total vs

abbrev counted : (s : Sys) (i n : ℕ) → Sys
counted s i n = put s i (record (entry s i) { ev_cnt = n })

counted-IsCounter :
    {s : Sys} {i : ℕ} (n : ℕ)
    → IsCounter s i
    → IsCounter (counted s i n) i × ((entry (counted s i n) i).ev_cnt ≡ n)
counted-IsCounter {s} {i} n c = (
  record {
    full = length-put s i e ∙ c.full;
    i_in = c.i_in;
    counts = ap (λ (x : FdEntry). x.kind) same ∙ c.counts;
  },
  ap (λ (x : FdEntry). x.ev_cnt) same,
)
  where
    e : FdEntry
    e = record (entry s i) { ev_cnt = n }

    same : entry (put s i e) i ≡ e
    same = entry-put_self s i e (omega (arith, c.full, c.i_in))

post-cons :
    (v : ℕ) (vs : List ℕ) {s : Sys} {i : ℕ}
    → IsCounter s i
    → post (fd_of i) (v ∷ vs) s
      ≡ post (fd_of i) vs (counted s i (((entry s i).ev_cnt + v) % 2 ^ 64))
unfolding post
post-cons v vs {s} {i} c = ap (λ (p : ℤ × Sys). post (fd_of i) vs p.1) (eventfd_write_lem v c)

post-nil : (fd : ℤ) (s : Sys) → post fd [] s ≡ s
unfolding post
post-nil fd s = refl

-- the counter after the writes
abbrev Posted : List ℕ → ℕ → ℕ → Sys → Type 0
Posted vs i n s = IsCounter s i × ((entry s i).ev_cnt ≡ (n + total vs) % 2 ^ 64)

post_lem :
    (vs : List ℕ) {s : Sys} {i n : ℕ}
    → IsCounter s i
    → (entry s i).ev_cnt ≡ n
    → n < 2 ^ 64
    → Posted vs i n (post (fd_of i) vs s)
unfolding total
post_lem [] {s} {i} c e h = rw (post-nil (fd_of i) s) (c, omega arith)
post_lem (v ∷ vs) {s} {i} c e h =
    let (c', e') = counted-IsCounter (((entry s i).ev_cnt + v) % 2 ^ 64) c in
    let (d, q) = post_lem vs c' e' (omega arith) in rw (post-cons v vs c) (d, omega (arith, q, e))

eventfd_read_lem :
    {t : Sys} {i n : ℕ}
    → IsCounter t i
    → (entry t i).ev_cnt ≡ n
    → ((n ≢ 0)
        × (eventfd_read (fd_of i) true t ≡ (pos 0, n, put t i (record (entry t i) { ev_cnt = 0 }))))
      ⊎ ((n ≡ 0) × (eventfd_read (fd_of i) true t ≡ (neg 1, 0, record t { errno = 11 })))
unfolding eventfd_read
eventfd_read_lem {t} {i} {n} c e = elim (Bool-cases (n == 0)) [
  | inl y ↦
      inr (
        (==_iff n 0).0 y,
        rw (fd_slot-fd_of i c.i_in, eventfd_read) (ground (arith, c.counts, e, y)),
      )
  | inr ne ↦ inl (
    ground (arith, ne),
    rw (fd_slot-fd_of i c.i_in, eventfd_read) (ground (arith, c.counts, e, ne)),
  )
]

-- A read after any writes returns their sum with what was there (modulo 2 ^ 64) and resets the
-- counter; at a sum of 0 it fails with EAGAIN and changes no entry.
pub eventfd_read-post :
    (vs : List ℕ) {s : Sys} {i : ℕ}
    → IsCounter s i
    → (entry s i).ev_cnt < 2 ^ 64
    → let n = ((entry s i).ev_cnt + total vs) % 2 ^ 64 in
      let t = post (fd_of i) vs s in
      let (r, v, s') = eventfd_read (fd_of i) true t in
      ((n ≢ 0) × (r ≡ pos 0) × (v ≡ n) × ((entry s' i).ev_cnt ≡ 0))
      ⊎ ((n ≡ 0) × (r ≡ neg 1) × (s' ≡ record t { errno = 11 }))
eventfd_read-post vs {s} {i} c h =
    let (d, q) = post_lem vs c refl h in
    elim (eventfd_read_lem d q) [
      | inl (ne, e) ↦ inl (ne, rw e refl, rw e refl, rw e ((counted-IsCounter 0 d).1))
      | inr (z, e) ↦ inr (z, rw e refl, rw e refl)
    ]
