-- ===== src/Fd/Epoll.antt =====
-- The epoll sets of rust/crates/house-libc/src/sys/mod.rs. `want` is the event that `ev` points to, its
-- mask and its data, if `ev` is not null.
pub mod Watch
pub mod Control
pub mod Wait
use house.Prelude.{
  ℕ, zero, suc, ◌+◌, ◌-◌, ◌*◌, ◌/◌, ◌%◌, ◌^◌, ◌≤◌, ◌<◌, min, max, ◌≡◌, refl, sym, ap, subst, ◌∙◌,
  ◌≢◌, ◌⊎◌, inl, inr, ◌↔◌, Bool, true, false, not, ◌&&◌, ◌||◌, Option, none, some, List, [], ◌∷◌,
  ◌++◌, map, arith, ltb, leb, ◌==◌, if◌then◌else◌, ltb→lt, lt→ltb, leb→le, le→leb, ==_iff, ==_refl,
  ==_ne, Bool-cases, Option-cases, all_below, all_below_sound, is_some, ℤ, pos, negsuc, neg, eq_ℤ,
  eq_ℤ_iff, as_u64, length, get_elem?, get_or, set, take, drop, replicate, length-append,
  length-take, length-drop, length-set, get_or-set_self, get_or-set_ne,
}
use house.Keyed.{fill}
use house.Fd.{
  FdKind, free, timer, pipe_r, pipe_w, event, epoll, Watched, FdEntry, free_entry, Sys,
  fake_fd_base, fake_fd_n, pipe_cap, fd_slot, entry, put, fail, is_free, first_free, two_free,
  le_u64, Payload, nothing, pipe_bytes, number, open_slot,
}
use house.Fd.Timer.{
  any_pending, sum_pending, zeros, house_timerfd_due, drain, read_timer, timerfd_create,
  timerfd_settime, timerfd_gettime,
}

abbrev pub epoll_in : ℕ
epoll_in = 1

abbrev pub ep_cap : ℕ
ep_cap = 16

unfoldable pub epoll_create : Sys → ℤ × Sys
unfolding first_free
epoll_create s = open_slot (λ e. record e { kind = epoll; watches = [] }) s

abbrev pub watch_of : ℤ → Option (ℕ × ℕ) → Watched
watch_of fd none = record { fd = fd; events = 0; token = 0 }
watch_of fd (some (events, token)) = record { fd = fd; events = events; token = token }

-- the scan of ADD for the descriptor
unfoldable pub watches_fd : ℤ → List Watched → Bool
watches_fd fd [] = false
watches_fd fd (w ∷ ws) = eq_ℤ w.fd fd || watches_fd fd ws

-- DEL: the last entry moves into the place of the first match
unfoldable pub unwatch : ℤ → List Watched → Option (List Watched)
unwatch fd [] = none
unwatch fd (w ∷ ws) =
    let rest = unwatch fd ws in
    if eq_ℤ w.fd fd then some (fill ws) else elim rest [ none ↦ none | some r ↦ some (w ∷ r) ]

-- MOD: new events and data at the first match
unfoldable pub rewatch : ℤ → Option (ℕ × ℕ) → List Watched → Option (List Watched)
rewatch fd want [] = none
rewatch fd want (w ∷ ws) =
    let rest = rewatch fd want ws in
    if eq_ℤ w.fd fd
    then some (watch_of w.fd want ∷ ws)
    else elim rest [ none ↦ none | some r ↦ some (w ∷ r) ]

-- the entries after ADD, DEL or MOD, or the error number; another `op` changes nothing
unfoldable pub ctl : ℤ → ℤ → Option (ℕ × ℕ) → List Watched → List Watched ⊎ ℕ
unfolding watches_fd unwatch rewatch
ctl op fd want ws =
    if eq_ℤ op (pos 1)
    then (if leb ep_cap (length ws)
        then inr 28
        else if watches_fd fd ws
        then inr 17
        else inl (ws ++ watch_of fd want ∷ []))
    else if eq_ℤ op (pos 2)
    then elim (unwatch fd ws) [ none ↦ inr 2 | some r ↦ inl r ]
    else if eq_ℤ op (pos 3)
    then elim (rewatch fd want ws) [ none ↦ inr 2 | some r ↦ inl r ]
    else inl ws

unfoldable pub epoll_ctl : ℤ → ℤ → ℤ → Option (ℕ × ℕ) → Sys → ℤ × Sys
epoll_ctl epfd op fd want s = elim (fd_slot epfd) [
  | none ↦ fail 9 s
  | some i ↦
      let ep = entry s i in
      elim ep.kind [
        | epoll ↦ elim (ctl op fd want ep.watches) [
          | inl ws ↦ (pos 0, put s i (record ep { watches = ws }))
          | inr code ↦ fail code s
        ]
        | _ ↦ fail 9 s
      ]
]

unfoldable pub fd_ready : ℕ → ℤ → Sys → Bool
fd_ready now fd s = elim (fd_slot fd) [
  | none ↦ false
  | some i ↦
      let e = entry s i in
      elim e.kind [
        | timer ↦ house_timerfd_due now fd s
        | pipe_r ↦ ltb 0 (length e.bytes)
        | event ↦ not (e.ev_cnt == 0)
        | _ ↦ false
      ]
]

-- `(want & EPOLLIN) != 0 && fd_ready(fd)`
abbrev pub reports : ℕ → Sys → Watched → Bool
reports now s w = not (w.events % 2 == 0) && fd_ready now w.fd s

-- One pass over the entries, which stops when `room` events are filled in: their masks and data.
unfoldable pub scan : ℕ → Sys → ℕ → List Watched → List (ℕ × ℕ)
scan now s room [] = []
scan now s zero (w ∷ ws) = []
scan now s (suc room) (w ∷ ws) =
    let more = scan now s room ws in
    let rest = scan now s (suc room) ws in
    if reports now s w then (epoll_in, w.token) ∷ more else rest

-- The end of a pass: what is found, or 0 when the time is over, or the passes that follow. A
-- timeout is in milliseconds.
unfoldable pub settle :
    List (ℕ × ℕ) → ℤ → ℕ → ℕ → Option (ℤ × List (ℕ × ℕ)) → Option (ℤ × List (ℕ × ℕ))
settle (x ∷ xs) timeout start now rest = some (pos (suc (length xs)), x ∷ xs)
settle [] (negsuc _) start now rest = rest
settle [] (pos ms) start now rest =
    if leb (ms * 1000000) ((now + 2 ^ 64 - start) % 2 ^ 64) then some (pos 0, []) else rest

-- What each later pass sees: the clock at the scan, the clock after it, and the state, as they are
-- after a yield or a wakeup.
unfoldable pub passes : ℕ → ℕ → ℤ → ℕ → List (ℕ × ℕ × Sys) → Option (ℤ × List (ℕ × ℕ))
unfolding settle
passes i room timeout start [] = none
passes i room timeout start ((at_scan, now, s) ∷ later) =
    let rest = passes i room timeout start later in
    settle (scan at_scan s room (entry s i).watches) timeout start now rest

-- the first pass, after which a timeout of 0 is over
unfoldable pub settle_first :
    List (ℕ × ℕ) → ℤ → Option (ℤ × List (ℕ × ℕ)) → Option (ℤ × List (ℕ × ℕ))
settle_first (x ∷ xs) timeout rest = some (pos (suc (length xs)), x ∷ xs)
settle_first [] (pos zero) rest = some (pos 0, [])
settle_first [] (pos (suc n)) rest = rest
settle_first [] (negsuc n) rest = rest

-- `at_scan` is the clock at the first scan, and `start` the clock after it, from which a timeout counts.
-- `maxevents` is 0 for a null `events` too. The result is none if the call still waits after the
-- passes that `later` gives.
unfoldable pub epoll_wait :
    ℤ → ℤ → ℤ → ℕ → ℕ → Sys → List (ℕ × ℕ × Sys) → Option (ℤ × List (ℕ × ℕ)) × Sys
unfolding settle_first
epoll_wait epfd maxevents timeout at_scan start s later = elim maxevents [
  | negsuc _ ↦ (some (pos 0, []), s)
  | pos zero ↦ (some (pos 0, []), s)
  | pos (suc n) ↦ elim (fd_slot epfd) [
    | none ↦ (some (neg 1, []), record s { errno = 9 })
    | some i ↦ elim (entry s i).kind [
      | epoll ↦
          let rest = passes i (suc n) timeout start later in
          (settle_first (scan at_scan s (suc n) (entry s i).watches) timeout rest, s)
      | _ ↦ (some (neg 1, []), record s { errno = 9 })
    ]
  ]
]

-- `epoll_pwait2`: the timeout of a timespec in milliseconds, as an `i32`; a null one waits for ever.
abbrev pub as_i32 : ℕ → ℤ
as_i32 n = let m = n % 2 ^ 32 in if ltb m (2 ^ 31) then pos m else negsuc (2 ^ 32 - 1 - m)

unfoldable pub millis : Option (ℕ × ℕ) → ℤ
millis none = neg 1
millis (some (secs, nsec)) = as_i32 (secs * 1000 + nsec / 1000000)
