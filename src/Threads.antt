-- ===== src/Threads.antt =====
-- rust/crates/house-libc/src/threads/threads.rs: the run queues of the cores. A thread is named by one
-- more than its index in THREADS, and 0 is the null pointer. The queues are linked through the `next`
-- fields of the threads.
pub mod Queue
pub mod Links
pub mod Step
pub mod Keep
pub mod Refines
pub mod Mutex
use house.Prelude.{
  ℕ, zero, suc, ◌+◌, ◌-◌, ◌*◌, ◌/◌, ◌%◌, ◌^◌, ◌≤◌, ◌<◌, min, max, ◌≡◌, refl, sym, ap, subst, ◌∙◌,
  ◌≢◌, ◌⊎◌, inl, inr, ◌↔◌, Bool, true, false, not, ◌&&◌, ◌||◌, Option, none, some, List, [], ◌∷◌,
  ◌++◌, map, arith, ltb, leb, ◌==◌, if◌then◌else◌, ltb→lt, lt→ltb, leb→le, le→leb, ==_iff, ==_refl,
  ==_ne, Bool-cases, Option-cases, all_below, all_below_sound, is_some, ℤ, pos, negsuc, neg, eq_ℤ,
  eq_ℤ_iff, as_u64, length, get_elem?, get_or, set, take, drop, replicate, length-append,
  length-take, length-drop, length-set, get_or-set_self, get_or-set_ne,
}

abbrev pub max_threads : ℕ
max_threads = 64

abbrev pub max_smp : ℕ
max_smp = 32

abbrev pub thr_runnable : ℕ
thr_runnable = 1

-- RUN_HEAD, RUN_TAIL, and two fields of the threads
pub record Runs : Type 0 where
  pub head : ℕ → ℕ
  pub tail : ℕ → ℕ
  pub next : ℕ → ℕ
  pub state : ℕ → ℕ

abbrev pub put {ℓ} : {A : Type ℓ} → (ℕ → A) → ℕ → A → ℕ → A
put f k v x = if x == k then v else f x

-- the walk along one queue, at most `fuel` links far
unfoldable pub found_from : ℕ → ℕ → ℕ → (ℕ → ℕ) → Bool
found_from zero q thr next = false
found_from (suc fuel) q thr next =
    let rest = found_from fuel (next q) thr next in
    if q == 0 then false else if q == thr then true else rest

-- `queued_anywhere` over the first cores
unfoldable pub queued_below : ℕ → ℕ → Runs → Bool
queued_below zero thr s = false
queued_below (suc c) thr s =
    let rest = queued_below c thr s in
    if rest then true else found_from (max_threads + 1) (s.head c) thr s.next

abbrev pub queued_anywhere : ℕ → Runs → Bool
queued_anywhere thr s = queued_below max_smp thr s

unfoldable pub link_last : ℕ → ℕ → Runs → Runs
link_last c thr s =
    let next = put s.next thr 0 in
    let t = s.tail c in
    record s {
      next = if t == 0 then next else put next t thr;
      head = if t == 0 then put s.head c thr else s.head;
      tail = put s.tail c thr;
      state = put s.state thr thr_runnable;
    }

unfoldable pub enqueue_run_core : ℤ → ℕ → Runs → Runs
enqueue_run_core (negsuc _) thr s = s
enqueue_run_core (pos c) thr s =
    if leb max_smp c
    then s
    else if thr == 0
    then s
    else if queued_anywhere thr s
    then s
    else link_last c thr s

unfoldable pub unlink_first : ℕ → ℕ → Runs → Runs
unlink_first c thr s =
    let rest = s.next thr in
    record s {
      head = put s.head c rest;
      tail = if rest == 0 then put s.tail c 0 else s.tail;
      next = put s.next thr 0;
    }

unfoldable pub dequeue_run_core : ℤ → Runs → ℕ × Runs
dequeue_run_core (negsuc _) s = (0, s)
dequeue_run_core (pos c) s =
    let thr = s.head c in
    if leb max_smp c then (0, s) else if thr == 0 then (0, s) else (thr, unlink_first c thr s)

-- the part of `house_threads_init` that is about the queues
unfoldable pub house_threads_init : Runs → Runs
house_threads_init s = record s {
  head = λ c. if ltb c max_smp then 0 else s.head c;
  tail = λ c. if ltb c max_smp then 0 else s.tail c;
  state = λ t. if ltb 0 t && leb t max_threads then 0 else s.state t;
}
