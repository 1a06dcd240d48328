-- ===== src/Fd/Timer.antt =====
-- The timer descriptors of sys/mod.rs. `now` is the clock, `house_uptime_ns_raw`; the ticks that
-- the timer interrupt counts for each core are a field of the state.
use house.Prelude.{
  ℕ, ◌+◌, ◌-◌, ◌*◌, ◌/◌, ◌%◌, ◌^◌, Bool, true, false, ◌||◌, Option, none, some, List, [], ◌∷◌, ltb,
  leb, ◌==◌, if◌then◌else◌, ℤ, pos, neg,
}
use house.Fd.{timer, Sys, fd_slot, entry, put, first_free, Payload, nothing, number, open_slot}

-- whether a core has a timer tick pending
pub any_pending : List ℕ → Bool
any_pending [] = false
any_pending (v ∷ vs) = ltb 0 v || any_pending vs

-- `total.wrapping_add(v)` over all cores
pub sum_pending : ℕ → List ℕ → ℕ
sum_pending total [] = total
sum_pending total (v ∷ vs) = sum_pending ((total + v) % 2 ^ 64) vs

abbrev pub zeros : List ℕ → List ℕ
zeros [] = []
zeros (v ∷ vs) = 0 ∷ zeros vs

-- `now` is the clock, `house_uptime_ns_raw`.
pub house_timerfd_due : ℕ → ℤ → Sys → Bool
unfolding any_pending
house_timerfd_due now fd s = elim (fd_slot fd) [
  | none ↦ false
  | some i ↦
      let e = entry s i in
      elim e.kind [
        | timer ↦
            if s.isr_active
            then any_pending s.isr_pending
            else if s.tick_interval_ns == 0
            then true
            else leb s.tick_interval_ns ((now + 2 ^ 64 - e.last_ns) % 2 ^ 64)
        | _ ↦ false
      ]
]

-- All pending ticks of all cores at once, at least 1.
pub drain : ℕ → Sys → ℤ × Payload × Sys
unfolding sum_pending
drain i s =
    let e = entry s i in
    let sum = sum_pending 0 s.isr_pending in
    let total : ℕ = if sum == 0 then 1 else sum in
    (
      pos 8,
      number total,
      record (put s i (record e { ticks = (e.ticks + total) % 2 ^ 64 })) {
        isr_pending = zeros s.isr_pending;
      },
    )

unfoldable pub read_timer : ℕ → ℤ → ℕ → Sys → ℤ × Payload × Sys
unfolding house_timerfd_due drain
read_timer now fd i s =
    let e = entry s i in
    if house_timerfd_due now fd s
    then (if s.isr_active then drain i s else (
      pos 8,
      number 1,
      put s i (record e { last_ns = now; ticks = (e.ticks + 1) % 2 ^ 64 }),
    ))
    else (neg 1, nothing, record s { errno = 11 })

unfoldable pub timerfd_create : ℕ → Sys → ℤ × Sys
unfolding first_free
timerfd_create now s = open_slot (λ e. record e { kind = timer; ticks = 0; last_ns = now }) s

-- `nv` is the pair of seconds and nanoseconds of `it_value`, if it is not null. Always 0.
unfoldable pub timerfd_settime : Option (ℕ × ℕ) → Sys → Sys
timerfd_settime none s = s
timerfd_settime (some (secs, nsec)) s = record s {
  tick_interval_ns = (secs * 1000000000 + nsec) % 2 ^ 64;
}

-- the seconds and nanoseconds of `it_value`
unfoldable pub timerfd_gettime : Sys → ℕ × ℕ
timerfd_gettime s = (s.tick_interval_ns / 1000000000, s.tick_interval_ns % 1000000000)
