-- ===== src/Fd/Epoll/Wait.antt =====
-- `epoll_wait` of sys/mod.rs: what a pass reports, when the call returns, and that a write wakes it.
use house.Prelude.{
  ℕ, zero, suc, ◌+◌, ◌-◌, ◌*◌, ◌%◌, ◌^◌, ◌<◌, min, ◌≡◌, refl, sym, ap, ◌∙◌, ◌≢◌, ◌⊎◌, inl, inr,
  Bool, true, false, Option, some, List, [], ◌∷◌, ◌++◌, arith, leb, if◌then◌else◌, lt→ltb,
  Bool-cases, ℤ, pos, negsuc, length, take, length-append, length-take,
}
use house.Fd.{epoll, Watched, FdEntry, Sys, fake_fd_n, pipe_cap, entry, put}
use house.Fd.Epoll.{epoll_in, fd_ready, reports, scan, settle, passes, settle_first, epoll_wait}
use house.Fd.Calls.{write}
use house.Fd.Calls.Table.{entry-put_self, entry-put_ne, fd_of, fd_slot-fd_of}
use house.Fd.Calls.Pipe.{Linked, enqueue, write_lem}

-- every event that is ready, in the order of the set
pub ready : ℕ → Sys → List Watched → List (ℕ × ℕ)
ready now s [] = []
ready now s (w ∷ ws) =
    let rest = ready now s ws in if reports now s w then (epoll_in, w.token) ∷ rest else rest

-- A pass reports the first `room` events that are ready.
pub scan_lem :
    (now : ℕ) (s : Sys) (room : ℕ) (ws : List Watched)
    → scan now s room ws ≡ take room (ready now s ws)
unfolding scan ready
scan_lem now s zero [] = refl
scan_lem now s (suc room) [] = refl
scan_lem now s zero (w ∷ ws) = refl
scan_lem now s (suc room) (w ∷ ws) = elim (Bool-cases (reports now s w)) [
  | inl y ↦ rw y (ap (λ l. (epoll_in, w.token) ∷ l) (scan_lem now s room ws))
  | inr y ↦ rw y (scan_lem now s (suc room) ws)
]

-- the first `room` events that are ready at a pass
abbrev pub first_ready : ℕ → ℕ → ℕ × ℕ × Sys → List (ℕ × ℕ)
first_ready i room (at_scan, _, s) = take room (ready at_scan s (entry s i).watches)

abbrev pub found_at : ℕ → ℕ → ℕ × ℕ × Sys → List (ℕ × ℕ)
found_at i room (at_scan, _, s) = scan at_scan s room (entry s i).watches

-- whether the time is over at a clock; a negative timeout has no end
abbrev pub expired : ℤ → ℕ → ℕ → Bool
expired (pos ms) start now = leb (ms * 1000000) ((now + 2 ^ 64 - start) % 2 ^ 64)
expired (negsuc _) start now = false

-- A pass that does not end the call: nothing is ready, and there is time left.
abbrev pub IsQuiet : ℕ → ℕ → ℤ → ℕ → ℕ × ℕ × Sys → Type 0
IsQuiet i room timeout start p = (found_at i room p ≡ []) × (expired timeout start p.1 ≡ false)

abbrev pub AllQuiet : ℕ → ℕ → ℤ → ℕ → List (ℕ × ℕ × Sys) → Type 0
AllQuiet i room timeout start [] = Unit {0}
AllQuiet i room timeout start (p ∷ ps) =
    IsQuiet i room timeout start p × AllQuiet i room timeout start ps

abbrev answer : List (ℕ × ℕ) → Option (ℤ × List (ℕ × ℕ))
answer found = some (pos (length found), found)

settle_ends :
    (found : List (ℕ × ℕ)) (timeout : ℤ) (start now : ℕ) (rest : Option (ℤ × List (ℕ × ℕ)))
    → (found ≢ []) ⊎ (expired timeout start now ≡ true)
    → settle found timeout start now rest ≡ answer found
unfolding settle
settle_ends (x ∷ xs) timeout start now rest h = refl
settle_ends [] (negsuc n) start now rest (inl h) = absurd (h refl)
settle_ends [] (negsuc n) start now rest (inr h) = cc
settle_ends [] (pos n) start now rest (inl h) = absurd (h refl)
settle_ends [] (pos n) start now rest (inr h) = rw h refl

settle_goes_on :
    (found : List (ℕ × ℕ)) (timeout : ℤ) (start now : ℕ) (rest : Option (ℤ × List (ℕ × ℕ)))
    → found ≡ []
    → expired timeout start now ≡ false
    → settle found timeout start now rest ≡ rest
unfolding settle
settle_goes_on found (negsuc n) start now rest e h = rw e refl
settle_goes_on found (pos n) start now rest e h = rw e (rw h refl)

passes_lem :
    (i room : ℕ) (timeout : ℤ) (start : ℕ) (quiet : List (ℕ × ℕ × Sys)) (p : ℕ × ℕ × Sys)
    (rest : List (ℕ × ℕ × Sys))
    → AllQuiet i room timeout start quiet
    → (found_at i room p ≢ []) ⊎ (expired timeout start p.1 ≡ true)
    → passes i room timeout start (quiet ++ p ∷ rest) ≡ answer (found_at i room p)
unfolding passes
passes_lem i room timeout start [] (at_scan, now, s) rest q h =
    settle_ends (found_at i room (at_scan, now, s)) timeout start now
      (passes i room timeout start rest) h
passes_lem i room timeout start ((at_scan, now, s) ∷ quiet) p rest q h =
    settle_goes_on (found_at i room (at_scan, now, s)) timeout start now _ q.0.0 q.0.1
    ∙ passes_lem i room timeout start quiet p rest q.1 h

-- A call on a live set that finds nothing at first ends at the first pass that finds an event, or
-- after the first at which the time is over, and returns the first of the events that are ready there,
-- at most as many as asked for, and their number: 0 and none if only the time is over.
pub epoll_wait_lem :
    (i n : ℕ) (timeout : ℤ) (at_scan start : ℕ) (s : Sys) (quiet : List (ℕ × ℕ × Sys))
    (p : ℕ × ℕ × Sys) (rest : List (ℕ × ℕ × Sys))
    → i < fake_fd_n
    → (entry s i).kind ≡ epoll
    → timeout ≢ pos 0
    → found_at i (suc n) (at_scan, start, s) ≡ []
    → AllQuiet i (suc n) timeout start quiet
    → (found_at i (suc n) p ≢ []) ⊎ (expired timeout start p.1 ≡ true)
    → epoll_wait (fd_of i) (pos (suc n)) timeout at_scan start s (quiet ++ p ∷ rest)
      ≡ (let found = first_ready i (suc n) p in (some (pos (length found), found), s))
unfolding epoll_wait
epoll_wait_lem i n timeout at_scan start s quiet p rest h k nz f q e =
    rw (fd_slot-fd_of i h, epoll_wait, k)
      (ap (λ r. (r, s))
          (first_goes_on timeout nz f ∙ passes_lem i (suc n) timeout start quiet p rest q e)
        ∙ ap (λ (l : List (ℕ × ℕ)). (some (pos (length l), l), s))
            (scan_lem p.0 p.2 (suc n) (entry p.2 i).watches))
  where
    first_goes_on :
        (t : ℤ)
        → t ≢ pos 0
        → found_at i (suc n) (at_scan, start, s) ≡ []
        → settle_first
            (found_at i (suc n) (at_scan, start, s))
            t
            (passes i (suc n) timeout start (quiet ++ p ∷ rest))
          ≡ passes i (suc n) timeout start (quiet ++ p ∷ rest)
    first_goes_on (pos zero) z e = absurd (z refl)
    first_goes_on (pos (suc m)) z e = rw e refl
    first_goes_on (negsuc m) z e = rw e refl

scan-ne :
    (now : ℕ) (s : Sys) (room : ℕ) (before : List Watched) (w : Watched) (after : List Watched)
    → reports now s w ≡ true
    → scan now s (suc room) (before ++ w ∷ after) ≢ []
unfolding scan
scan-ne now s room [] w after h e = let f = rw h at e in cc f
scan-ne now s room (b ∷ before) w after h e = elim (Bool-cases (reports now s b)) [
  | inl y ↦ let f = rw y at e in cc f
  | inr y ↦ let f = rw y at e in scan-ne now s room before w after h f
]

-- After the write the read end holds bytes.
written-ready :
    {s : Sys} {w r : ℕ} (now x : ℕ) (xs : List ℕ)
    → Linked s w r
    → fd_ready now (fd_of r) (write (fd_of w) (x ∷ xs) s).1 ≡ true
unfolding fd_ready
written-ready {s} {w} {r} now x xs l =
    let e' = record (entry s r) { bytes = (enqueue (entry s r).bytes (x ∷ xs)).1 } in
    let same : entry (put s r e') r ≡ e' = entry-put_self s r e' (omega (arith, l.full, l.r_in)) in
    rw (write_lem (x ∷ xs) l) (
      rw (fd_slot-fd_of r l.r_in, fd_ready, same, l.reads)
        (lt→ltb _ _ (
          omega (
            arith,
            ap (λ (y : FdEntry). length y.bytes) same,
            l.bounded,
            length-append (entry s r).bytes
                (take (min (suc (length xs)) (pipe_cap - length (entry s r).bytes)) (x ∷ xs)),
            length-take (min (suc (length xs)) (pipe_cap - length (entry s r).bytes)) (x ∷ xs),
          ))))

-- A set at slot `i` that watches the read end of a pipe for input, at slot `r`: a write of at least
-- one byte to the other end, at slot `w`, ends the wait at the next pass, with an event at least.
pub write-wakes :
    (i n r w : ℕ) (timeout : ℤ) (at_scan start : ℕ) (s0 s : Sys) (quiet : List (ℕ × ℕ × Sys))
    (x : ℕ) (xs : List ℕ) (rest : List (ℕ × ℕ × Sys)) (before : List Watched) (events token : ℕ)
    (after : List Watched) (now' end' : ℕ)
    → Linked s w r
    → i < fake_fd_n
    → (entry s0 i).kind ≡ epoll
    → i ≢ r
    → timeout ≢ pos 0
    → found_at i (suc n) (at_scan, start, s0) ≡ []
    → AllQuiet i (suc n) timeout start quiet
    → (entry s i).watches
      ≡ before ++ record { fd = fd_of r; events = events; token = token } ∷ after
    → events % 2 ≡ 1
    → (k : ℕ) × (found : List (ℕ × ℕ)) × (epoll_wait
          (fd_of i)
          (pos (suc n))
          timeout
          at_scan
          start
          s0
          (quiet ++ (now', end', (write (fd_of w) (x ∷ xs) s).1) ∷ rest)
        ≡ (some (pos k, found), s0))
      × (0 < k)
write-wakes i n r w timeout at_scan start s0 s quiet x xs rest before events token after now' end' l
      h k ne nz f q e odd =
    let s' = (write (fd_of w) (x ∷ xs) s).1 in
    let found = found_at i (suc n) (now', end', s') in
    let some_event : found ≢ [] =
      rw (kept ∙ e) (scan-ne now' s' n before _ after (rw odd (written-ready now' x xs l))) in
    let first = first_ready i (suc n) (now', end', s') in
    let same : found ≡ first = scan_lem now' s' (suc n) (entry s' i).watches in
    (
      length first,
      first,
      epoll_wait_lem i n timeout at_scan start s0 quiet (now', end', s') rest h k nz f q
          (inl some_event),
      pos_length first (λ z. some_event (same ∙ z)),
    )
  where
    kept : (entry (write (fd_of w) (x ∷ xs) s).1 i).watches ≡ (entry s i).watches
    kept =
        rw (write_lem (x ∷ xs) l)
          (ap (λ (y : FdEntry). y.watches) (entry-put_ne s r i _ (λ z. ne (sym z))))

    pos_length : (l : List (ℕ × ℕ)) → l ≢ [] → 0 < length l
    pos_length [] z = absurd (z refl)
    pos_length (y ∷ l) z = omega arith
