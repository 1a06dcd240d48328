-- ===== src/Threads/Mutex/Waiters.antt =====
-- rust/crates/house-libc/src/threads/threads.rs: the waiting threads of a mutex as a list.
use house.Prelude.{
  ℕ, ◌^◌, ◌≤◌, ◌<◌, ◌≡◌, refl, sym, subst, ◌≢◌, ◌⊎◌, inl, inr, false, Option, none, some, List, [],
  ◌∷◌, ◌++◌, arith, ◌==◌, ==_iff, ==_ne, Bool-cases,
}
use house.Threads.{max_threads}
use house.Threads.Queue.{has, Queues}
use house.Threads.Links.{put_self}
use house.Threads.Step.{IsQueues, link_self}
use house.Threads.Mutex.Wake.{IsWaiting, Awake, wake_first-Awake}
use house.Threads.Mutex.{
  thr_blocked, Mutex, join_wait, lock_pass, pthread_mutex_lock, pthread_mutex_trylock, wake_first,
  unlock, pthread_mutex_unlock,
}

-- what a turn of `pthread_mutex_lock` does
pub data Turn (cur : ℕ) (m : Mutex) (ws : List ℕ) (r : Option ℕ × Mutex) : Type 0 where
  taken : m.locked ≡ 0 → r ≡ (some 0, record m { locked = 1; owner = cur }) → Turn cur m ws r
  refused : m.locked ≢ 0 → cur ≡ 0 → r ≡ (some 22, m) → Turn cur m ws r
  waits :
      m.locked ≢ 0
      → cur ≢ 0
      → r.0 ≡ none
      → IsWaiting r.1 (ws ++ cur ∷ [])
      → r.1.locked ≡ m.locked
      → r.1.owner ≡ m.owner
      → r.1.runs.state cur ≡ thr_blocked
      → Turn cur m ws r

-- what `pthread_mutex_unlock` does to the first that waits
abbrev pub Woken : ℕ → Mutex → List ℕ → Queues → Mutex → Type 0
Woken cpu m [] qs m' = m' ≡ record m { locked = 0; owner = 0 }
Woken cpu m (w ∷ rest) qs m' = Awake cpu w rest qs m m'

unlock-Woken :
    (cpu : ℕ) (m : Mutex) (ws : List ℕ) (qs : Queues)
    → IsWaiting m ws
    → IsQueues m.runs qs
    → ((t : ℕ) → m.affinity t < 2 ^ 32)
    → Woken cpu m ws qs (unlock cpu m)
unfolding unlock
unlock-Woken cpu m [] qs i q lt = rw i.0 refl
unlock-Woken cpu m (w ∷ rest) qs i q lt =
    let opened : Mutex = record m { locked = 0; owner = 0 } in
    let e : unlock cpu m ≡ wake_first cpu w opened = rw (i.0.0, ==_ne w 0 i.0.1) refl in
    subst (Awake cpu w rest qs m) (sym e)
      (wake_first-Awake cpu w opened rest qs refl refl i q (lt w))

join_wait-IsWaiting :
    (cur : ℕ) (m : Mutex) (ws : List ℕ)
    → IsWaiting m ws
    → cur ≢ 0
    → cur ≤ max_threads
    → has cur ws ≡ false
    → IsWaiting (join_wait cur m) (ws ++ cur ∷ [])
unfolding join_wait
join_wait-IsWaiting cur m ws i nz le n =
    link_self m.wait_next m.wait_head m.wait_tail ws cur i nz le n

join_wait-state : (cur : ℕ) (m : Mutex) → (join_wait cur m).runs.state cur ≡ thr_blocked
unfolding join_wait
join_wait-state cur m = put_self m.runs.state cur thr_blocked

join_wait-owner :
    (cur : ℕ) (m : Mutex)
    → ((join_wait cur m).locked ≡ m.locked) × ((join_wait cur m).owner ≡ m.owner)
unfolding join_wait
join_wait-owner cur m = (refl, refl)

lock_pass-Turn :
    (cur : ℕ) (m : Mutex) (ws : List ℕ)
    → IsWaiting m ws
    → cur ≤ max_threads
    → has cur ws ≡ false
    → Turn cur m ws (lock_pass cur m)
unfolding lock_pass
lock_pass-Turn cur m ws i le n = elim (Bool-cases (m.locked == 0)) [
  | inl y ↦ taken ((==_iff m.locked 0).0 y) (rw y refl)
  | inr y ↦
      let held : m.locked ≢ 0 = λ e. ground (arith, y, e) in
      elim (Bool-cases (cur == 0)) [
        | inl z ↦ refused held ((==_iff cur 0).0 z) (rw (y, z) refl)
        | inr z ↦
            let real : cur ≢ 0 = λ e. ground (arith, z, e) in
            rw (y, z)
              (waits held real refl (join_wait-IsWaiting cur m ws i real le n)
                (join_wait-owner cur m).0 (join_wait-owner cur m).1 (join_wait-state cur m))
      ]
]

-- Where the links of a mutex, at an address that is not null, describe the list `ws` of threads, those
-- of the run queues describe `qs`, affinities have 32 bits, and `cur` is null or a thread of the table
-- that is not in `ws`: `pthread_mutex_lock` up to the point where it blocks takes the mutex when it is
-- free, answers 22 for a null `cur` when it is held, and else puts `cur` behind the others as blocked
-- and leaves the owner. `pthread_mutex_trylock` takes the mutex when it is free, and else answers 16
-- and changes nothing. `pthread_mutex_unlock` answers 0, frees the mutex, and wakes the first of `ws`,
-- where there is one: the links then describe the others, it is runnable, and no other thread changes
-- its state. It goes to the core of the lowest bit of its affinity, or to core 0 if the affinity is 0
-- or there are not so many cores; there it stands behind the others, unless it stood in the queue of
-- some core before, when no queue changes. That core is sent an interrupt, if it is another one that
-- is there and online, and no core is if not.
pub mutex_lem :
    (p cpu cur : ℕ) (m : Mutex) (ws : List ℕ) (qs : Queues)
    → p ≢ 0
    → IsWaiting m ws
    → IsQueues m.runs qs
    → ((t : ℕ) → m.affinity t < 2 ^ 32)
    → cur ≤ max_threads
    → has cur ws ≡ false
    → let freed = pthread_mutex_unlock cpu p m in
      Turn cur m ws (pthread_mutex_lock p cur m)
      × (freed.0 ≡ 0)
      × Woken cpu m ws qs freed.1
      × (((m.locked ≡ 0)
            × (pthread_mutex_trylock p cur m ≡ (0, record m { locked = 1; owner = cur })))
          ⊎ ((m.locked ≢ 0) × (pthread_mutex_trylock p cur m ≡ (16, m))))
unfolding pthread_mutex_lock pthread_mutex_unlock pthread_mutex_trylock
mutex_lem p cpu cur m ws qs nz i q lt le n = rw (==_ne p 0 nz) (
  lock_pass-Turn cur m ws i le n,
  refl,
  unlock-Woken cpu m ws qs i q lt,
  elim (Bool-cases (m.locked == 0)) [
    | inl y ↦ inl ((==_iff m.locked 0).0 y, rw y refl)
    | inr y ↦ inr (λ e. ground (arith, y, e), rw y refl)
  ],
)
