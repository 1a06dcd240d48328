-- ===== src/Threads/Mutex.antt =====
-- rust/crates/house-libc/src/threads/threads.rs: mutexes, with their queue of waiting threads, which
-- is linked through the `wait_next` fields. The lock of the scheduler makes each pass one step.
pub mod Target
pub mod Wake
pub mod Waiters
pub mod Lost
use house.Prelude.{
  ℕ, zero, suc, ◌+◌, ◌-◌, ◌*◌, ◌/◌, ◌%◌, ◌^◌, ◌≤◌, ◌<◌, min, max, ◌≡◌, refl, sym, ap, subst, ◌∙◌,
  ◌≢◌, ◌⊎◌, inl, inr, ◌↔◌, Bool, true, false, not, ◌&&◌, ◌||◌, Option, none, some, List, [], ◌∷◌,
  ◌++◌, map, arith, ltb, leb, ◌==◌, if◌then◌else◌, ltb→lt, lt→ltb, leb→le, le→leb, ==_iff, ==_refl,
  ==_ne, Bool-cases, Option-cases, all_below, all_below_sound, is_some, ℤ, pos, negsuc, neg, eq_ℤ,
  eq_ℤ_iff, as_u64, length, get_elem?, get_or, set, take, drop, replicate, length-append,
  length-take, length-drop, length-set, get_or-set_self, get_or-set_ne,
}
use house.Threads.{
  max_threads, max_smp, thr_runnable, Runs, put, found_from, queued_below, queued_anywhere,
  link_last, enqueue_run_core, unlink_first, dequeue_run_core, house_threads_init,
}

abbrev pub thr_blocked : ℕ
thr_blocked = 3

-- a HouseMutex, the `wait_next` and `affinity` fields of the threads, the run queues, the number of
-- cores, those online, and the cores that were sent an interrupt, last first
pub record Mutex : Type 0 where
  pub locked : ℕ
  pub owner : ℕ
  pub wait_head : ℕ
  pub wait_tail : ℕ
  pub wait_next : ℕ → ℕ
  pub affinity : ℕ → ℕ
  pub runs : Runs
  pub smp : ℕ
  pub online_mask : ℕ
  pub sgis : List ℕ

-- The mutex is at the address `p`.
unfoldable pub pthread_mutex_init : ℕ → Mutex → ℕ × Mutex
pthread_mutex_init p m =
    if p == 0
    then (22, m)
    else (0, record m { locked = 0; owner = 0; wait_head = 0; wait_tail = 0 })

-- `cur` becomes the last of those that wait.
unfoldable pub join_wait : ℕ → Mutex → Mutex
join_wait cur m =
    let next = put m.wait_next cur 0 in
    let t = m.wait_tail in
    record m {
      runs = record m.runs { state = put m.runs.state cur thr_blocked };
      wait_next = if t == 0 then next else put next t cur;
      wait_head = if t == 0 then cur else m.wait_head;
      wait_tail = cur;
    }

-- One turn of the loop of `pthread_mutex_lock`, up to its call of `house_sched_block`: `none` is that
-- the thread goes on to block.
unfoldable pub lock_pass : ℕ → Mutex → Option ℕ × Mutex
lock_pass cur m =
    if m.locked == 0
    then (some 0, record m { locked = 1; owner = cur })
    else if cur == 0
    then (some 22, m)
    else (none, join_wait cur m)

-- the call up to its first `house_sched_block`; after that come more turns of the loop
unfoldable pub pthread_mutex_lock : ℕ → ℕ → Mutex → Option ℕ × Mutex
pthread_mutex_lock p cur m = if p == 0 then (some 22, m) else lock_pass cur m

unfoldable pub pthread_mutex_trylock : ℕ → ℕ → Mutex → ℕ × Mutex
pthread_mutex_trylock p cur m =
    if p == 0
    then (22, m)
    else if m.locked == 0
    then (0, record m { locked = 1; owner = cur })
    else (16, m)

-- the position of the lowest bit that is set, below the fuel
unfoldable pub trailing_zeros : ℕ → ℕ → ℕ
trailing_zeros zero a = 0
trailing_zeros (suc n) a = let rest = trailing_zeros n (a / 2) in if a % 2 == 1 then 0 else suc rest

unfoldable pub house_sched_kick : ℕ → Mutex → Mutex
house_sched_kick core m =
    if leb m.smp core
    then m
    else if leb 32 core
    then m
    else if m.online_mask / 2 ^ core % 2 == 0
    then m
    else record m { sgis = core ∷ m.sgis }

-- the core that a woken thread goes to
abbrev pub wake_core : ℕ → Mutex → ℕ
wake_core w m =
    let target = if m.affinity w == 0 then 0 else trailing_zeros 32 (m.affinity w) in
    if leb m.smp target then 0 else target

-- `w` leaves the queue and becomes runnable.
unfoldable pub wake_first : ℕ → ℕ → Mutex → Mutex
wake_first cpu w m =
    let rest = m.wait_next w in
    let t = wake_core w m in
    let runnable = record m.runs { state = put m.runs.state w thr_runnable } in
    let woken : Mutex = record m {
      wait_head = rest;
      wait_tail = if rest == 0 then 0 else m.wait_tail;
      wait_next = put m.wait_next w 0;
      runs = enqueue_run_core (pos t) w runnable;
    } in
    if t == cpu then woken else house_sched_kick t woken

-- on the core `cpu`
unfoldable pub unlock : ℕ → Mutex → Mutex
unlock cpu m =
    let open_again : Mutex = record m { locked = 0; owner = 0 } in
    let w = m.wait_head in if w == 0 then open_again else wake_first cpu w open_again

unfoldable pub pthread_mutex_unlock : ℕ → ℕ → Mutex → ℕ × Mutex
pthread_mutex_unlock cpu p m = if p == 0 then (22, m) else (0, unlock cpu m)
