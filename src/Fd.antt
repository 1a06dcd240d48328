-- ===== src/Fd.antt =====
-- rust/crates/house-libc/src/sys/mod.rs: the descriptor table FDT, its
-- entries and the scans for a free one. The children have the calls. A call takes the state and returns the new one
-- beside its result; `errno` is a field of the state.
pub mod Timer
pub mod Calls
pub mod Epoll
use house.Prelude.{
  ℕ, zero, suc, ◌+◌, ◌-◌, ◌*◌, ◌/◌, ◌%◌, ◌^◌, ◌≤◌, ◌<◌, min, max, ◌≡◌, refl, sym, ap, subst, ◌∙◌,
  ◌≢◌, ◌⊎◌, inl, inr, ◌↔◌, Bool, true, false, not, ◌&&◌, ◌||◌, Option, none, some, List, [], ◌∷◌,
  ◌++◌, map, arith, ltb, leb, ◌==◌, if◌then◌else◌, ltb→lt, lt→ltb, leb→le, le→leb, ==_iff, ==_refl,
  ==_ne, Bool-cases, Option-cases, all_below, all_below_sound, is_some, ℤ, pos, negsuc, neg, eq_ℤ,
  eq_ℤ_iff, as_u64, length, get_elem?, get_or, set, take, drop, replicate, length-append,
  length-take, length-drop, length-set, get_or-set_self, get_or-set_ne,
}

-- FdKind
pub data FdKind : Type 0 where
  free timer pipe_r pipe_w event epoll : FdKind

-- one entry of `ep_fd`, `ep_events` and `ep_data`
pub record Watched : Type 0 where
  pub fd : ℤ
  pub events : ℕ
  pub token : ℕ

-- FdEntry. `bytes` is `buf[0..len]`, and `watches` the first `ep_n` entries of the epoll arrays;
-- nothing behind these is ever read.
pub record FdEntry : Type 0 where
  pub kind : FdKind
  pub peer : ℤ
  pub ticks : ℕ
  pub last_ns : ℕ
  pub bytes : List ℕ
  pub ev_cnt : ℕ
  pub watches : List Watched

abbrev pub free_entry : FdEntry
free_entry = record {
  kind = free;
  peer = neg 1;
  ticks = 0;
  last_ns = 0;
  bytes = [];
  ev_cnt = 0;
  watches = [];
}

-- The statics of the file, those of the timer that it reads, and what went to the UART.
pub record Sys : Type 0 where
  pub fdt : List FdEntry
  pub errno : ℕ
  pub tick_interval_ns : ℕ
  pub isr_active : Bool
  pub isr_pending : List ℕ
  pub uart : List ℕ

abbrev pub fake_fd_base : ℕ
fake_fd_base = 3

abbrev pub fake_fd_n : ℕ
fake_fd_n = 256

abbrev pub pipe_cap : ℕ
pipe_cap = 1024

unfoldable pub fd_slot : ℤ → Option ℕ
fd_slot (negsuc n) = none
fd_slot (pos n) =
    if ltb n fake_fd_base
    then none
    else if ltb (n - fake_fd_base) fake_fd_n
    then some (n - fake_fd_base)
    else none

abbrev pub entry : Sys → ℕ → FdEntry
entry s i = get_or s.fdt i free_entry

abbrev pub put : Sys → ℕ → FdEntry → Sys
put s i e = record s { fdt = set s.fdt i e }

abbrev pub fail : ℕ → Sys → ℤ × Sys
fail code s = (neg 1, record s { errno = code })

-- `kind == FdKind::Free`
abbrev pub is_free : FdKind → Bool
is_free free = true
is_free _ = false

-- the first free slot of the table, counted from `i`
unfoldable pub first_free : List FdEntry → ℕ → Option ℕ
first_free [] i = none
first_free (e ∷ es) i = if is_free e.kind then some i else first_free es (suc i)

-- the first two free slots: the loop of `pipe`
unfoldable pub two_free : List FdEntry → ℕ → Option (ℕ × ℕ)
unfolding first_free
two_free [] i = none
two_free (e ∷ es) i =
    let rest = two_free es (suc i) in
    if is_free e.kind
    then elim (first_free es (suc i)) [ none ↦ none | some j ↦ some (i, j) ]
    else rest

-- a little-endian `u64` from the first 8 bytes
abbrev pub le_u64 : List ℕ → ℕ
le_u64 bs =
    get_or bs 0 0
    + 2 ^ 8 * get_or bs 1 0
    + 2 ^ 16 * get_or bs 2 0
    + 2 ^ 24 * get_or bs 3 0
    + 2 ^ 32 * get_or bs 4 0
    + 2 ^ 40 * get_or bs 5 0
    + 2 ^ 48 * get_or bs 6 0
    + 2 ^ 56 * get_or bs 7 0

-- What a read hands over: the bytes of a pipe, or the number stored as a `u64`.
pub data Payload : Type 0 where
  nothing : Payload
  pipe_bytes : List ℕ → Payload
  number : ℕ → Payload

-- a new entry in the first free slot, or ENFILE
abbrev pub open_slot : (FdEntry → FdEntry) → Sys → ℤ × Sys
open_slot f s = elim (first_free s.fdt 0) [
  | none ↦ fail 23 s
  | some i ↦ (pos (fake_fd_base + i), put s i (f (entry s i)))
]
