-- ===== src/Fd/Calls/Table.antt =====
-- The descriptor table: which slots a call takes, and which it leaves alone.
use house.Prelude.{
  ℕ, suc, ◌+◌, ◌-◌, ◌≤◌, ◌<◌, ◌≡◌, refl, ◌≢◌, ◌⊎◌, inl, inr, true, false, Option, none, some, List,
  [], ◌∷◌, arith, if◌then◌else◌, Bool-cases, ℤ, pos, neg, length, get_or, length-set,
  get_or-set_self, get_or-set_ne,
}
use house.Fd.Calls.{eventfd}
use house.Fd.Timer.{timerfd_create}
use house.Fd.{
  timer, event, fail, open_slot, two_free, FdKind, FdEntry, free_entry, Sys, fake_fd_base,
  fake_fd_n, fd_slot, entry, put, is_free, first_free,
}

-- The table has its 256 slots.
abbrev pub IsFull : Sys → Type 0
IsFull s = length s.fdt ≡ fake_fd_n

pub entry-put_self : (s : Sys) (i : ℕ) (e : FdEntry) → i < length s.fdt → entry (put s i e) i ≡ e
entry-put_self s i e h = get_or-set_self s.fdt i e free_entry h

pub entry-put_ne : (s : Sys) (i j : ℕ) (e : FdEntry) → i ≢ j → entry (put s i e) j ≡ entry s j
entry-put_ne s i j e h = get_or-set_ne s.fdt e free_entry h

pub length-put : (s : Sys) (i : ℕ) (e : FdEntry) → length (put s i e).fdt ≡ length s.fdt
length-put s i e = length-set s.fdt i e

-- the descriptor of a slot
abbrev pub fd_of : ℕ → ℤ
fd_of i = pos (fake_fd_base + i)

pub fd_slot-fd_of : (i : ℕ) → i < fake_fd_n → fd_slot (fd_of i) ≡ some i
unfolding fd_slot
fd_slot-fd_of i h = ground arith

abbrev pub kind_at : List FdEntry → ℕ → FdKind
kind_at es i = (get_or es i free_entry).kind

-- how many slots are free
pub count_free : List FdEntry → ℕ
count_free [] = 0
count_free (e ∷ es) = if is_free e.kind then suc (count_free es) else count_free es

-- What a scan returns is in the table and free; it fails only if no slot is free.
abbrev pub FoundFree : List FdEntry → ℕ → Option ℕ → Type 0
FoundFree es i none = count_free es ≡ 0
FoundFree es i (some k) =
    (i ≤ k)
    × (k < i + length es)
    × (is_free (get_or es (k - i) free_entry).kind ≡ true)
    × (0 < count_free es)

FoundFree-suc :
    (e : FdEntry) (es : List FdEntry) (i : ℕ) (r : Option ℕ)
    → FoundFree es (suc i) r
    → is_free e.kind ≡ false
    → FoundFree (e ∷ es) i r
unfolding count_free
FoundFree-suc e es i none h c = ground arith
FoundFree-suc e es i (some k) (a, b, f, c') c =
    let shift : k - i ≡ suc (k - suc i) = omega arith in
    (omega arith, omega arith, rw shift f, ground arith)

pub first_free-FoundFree : (es : List FdEntry) (i : ℕ) → FoundFree es i (first_free es i)
unfolding first_free count_free
first_free-FoundFree [] i = refl
first_free-FoundFree (e ∷ es) i = elim (Bool-cases (is_free e.kind)) [
  | inl y ↦
      rw (y, first_free)
        (omega arith, omega arith, rw (zero_sub i) y, rw (y, count_free) (omega arith))
  | inr n ↦ rw (n, first_free) (FoundFree-suc e es i _ (first_free-FoundFree es (suc i)) n)
]
  where
    zero_sub : (k : ℕ) → k - k ≡ 0
    zero_sub k = omega arith

abbrev pub FoundTwo : List FdEntry → ℕ → Option (ℕ × ℕ) → Type 0
FoundTwo es i none = count_free es ≤ 1
FoundTwo es i (some (r, w)) =
    (i ≤ r)
    × (r < w)
    × (w < i + length es)
    × (is_free (get_or es (r - i) free_entry).kind ≡ true)
    × (is_free (get_or es (w - i) free_entry).kind ≡ true)
    × (1 < count_free es)

FoundTwo-suc :
    (e : FdEntry) (es : List FdEntry) (i : ℕ) (r : Option (ℕ × ℕ))
    → FoundTwo es (suc i) r
    → is_free e.kind ≡ false
    → FoundTwo (e ∷ es) i r
unfolding count_free
FoundTwo-suc e es i none h c = ground arith
FoundTwo-suc e es i (some (r, w)) (a, b, l, f, g, n) c =
    let shift_r : r - i ≡ suc (r - suc i) = omega arith in
    let shift_w : w - i ≡ suc (w - suc i) = omega arith in
    (omega arith, omega arith, omega arith, rw shift_r f, rw shift_w g, ground arith)

FoundTwo-first :
    (e : FdEntry) (es : List FdEntry) (i : ℕ) (r : Option ℕ)
    → FoundFree es (suc i) r
    → is_free e.kind ≡ true
    → FoundTwo (e ∷ es) i (elim r [ none ↦ none | some j ↦ some (i, j) ])
unfolding count_free
FoundTwo-first e es i none h c = ground arith
FoundTwo-first e es i (some w) (a, b, f, n) c =
    let shift_i : i - i ≡ 0 = omega arith in
    let shift_w : w - i ≡ suc (w - suc i) = omega arith in
    (omega arith, omega arith, omega arith, rw shift_i c, rw shift_w f, ground arith)

pub two_free-FoundTwo : (es : List FdEntry) (i : ℕ) → FoundTwo es i (two_free es i)
unfolding two_free count_free
two_free-FoundTwo [] i = omega arith
two_free-FoundTwo (e ∷ es) i = elim (Bool-cases (is_free e.kind)) [
  | inl y ↦ rw (y, two_free) (FoundTwo-first e es i _ (first_free-FoundFree es (suc i)) y)
  | inr n ↦ rw (n, two_free) (FoundTwo-suc e es i _ (two_free-FoundTwo es (suc i)) n)
]

-- What a call that opens a descriptor leaves behind.
abbrev pub Opened : (FdEntry → FdEntry) → Sys → ℤ × Sys → Type 0
Opened f s (r, s') =
    ((count_free s.fdt ≡ 0) × (r ≡ neg 1) × (s' ≡ record s { errno = 23 }))
    ⊎ ((i : ℕ) × (r ≡ fd_of i)
        × (i < length s.fdt)
        × (is_free (entry s i).kind ≡ true)
        × (entry s' i ≡ f (entry s i))
        × ((j : ℕ) → i ≢ j → entry s' j ≡ entry s j))

pub minus_zero : (i : ℕ) → i - 0 ≡ i
minus_zero i = omega arith

open_slot-Opened : (f : FdEntry → FdEntry) (s : Sys) → Opened f s (open_slot f s)
open_slot-Opened f s = go (first_free s.fdt 0) (first_free-FoundFree s.fdt 0)
  where
    go :
        (r : Option ℕ)
        → FoundFree s.fdt 0 r
        → Opened f s (elim r [
          | none ↦ fail 23 s
          | some i ↦ (pos (fake_fd_base + i), put s i (f (entry s i)))
        ])
    go none h = inl (h, refl, refl)
    go (some i) (a, b, c, n) = inr (
      i,
      refl,
      omega arith,
      (rw (minus_zero i) at c),
      entry-put_self s i (f (entry s i)) (omega arith),
      λ j ne. entry-put_ne s i j (f (entry s i)) ne,
    )

abbrev pub event_entry : ℕ → FdEntry → FdEntry
event_entry initval e = record e { kind = event; ev_cnt = initval; bytes = [] }

abbrev pub timer_entry : ℕ → FdEntry → FdEntry
timer_entry now e = record e { kind = timer; ticks = 0; last_ns = now }

-- `eventfd` and `timerfd_create` take a slot that was free, set it up and leave all others alone,
-- or fail with ENFILE when no slot is free.
pub open_lem :
    (initval now : ℕ) (s : Sys)
    → Opened (event_entry initval) s (eventfd initval s)
      × Opened (timer_entry now) s (timerfd_create now s)
unfolding eventfd timerfd_create
open_lem initval now s =
    (open_slot-Opened (event_entry initval) s, open_slot-Opened (timer_entry now) s)
