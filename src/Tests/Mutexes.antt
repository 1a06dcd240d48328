-- ===== src/Tests/Mutexes.antt =====
-- A mutex that thread 9 holds, and threads 1 and 2.
use house.Prelude.{◌≡◌, refl, ◌≢◌, ◌⊎◌, false, [], ◌∷◌, arith}
use house.Threads.Mutex.{
  Mutex, lock_pass, pthread_mutex_lock, pthread_mutex_trylock, unlock, pthread_mutex_unlock,
}
use house.Threads.Mutex.Waiters.{Turn, Woken, mutex_lem}
use house.Threads.Mutex.Wake.{IsWaiting}
use house.Threads.Step.{IsQueues}
use house.Threads.Mutex.Lost.{Forgotten, relock_loses}
use house.Threads.Queue.{has, last}

abbrev held : Mutex
held = record {
  locked = 1;
  owner = 9;
  wait_head = 0;
  wait_tail = 0;
  wait_next = λ _. 0;
  affinity = λ _. 0;
  runs = record { head = λ _. 0; tail = λ _. 0; next = λ _. 0; state = λ _. 2 };
  smp = 2;
  online_mask = 3;
  sgis = [];
}

-- thread 1 waits
abbrev one_waits : Mutex
one_waits = record held { wait_head = 1; wait_tail = 1 }

one_waits-IsWaiting : IsWaiting one_waits (1 ∷ [])
unfolding has last
one_waits-IsWaiting = ((refl, omega arith, refl), refl, (refl, tt), (omega arith, omega arith, tt))

none_queued : IsQueues held.runs (λ _. [])
unfolding has last
none_queued = ((λ c lt. (refl, refl, tt, tt)), λ u c d _ _ _ e. absurd (ground (arith, e)))

two_not_in : has 2 (1 ∷ []) ≡ false
unfolding has
two_not_in = refl

mutex_lem_example :
    let freed = pthread_mutex_unlock 1 4096 one_waits in
    Turn 2 one_waits (1 ∷ []) (pthread_mutex_lock 4096 2 one_waits)
    × (freed.0 ≡ 0)
    × Woken 1 one_waits (1 ∷ []) (λ _. []) freed.1
    × (((one_waits.locked ≡ 0)
          × (pthread_mutex_trylock 4096 2 one_waits
              ≡ (0, record one_waits { locked = 1; owner = 2 })))
        ⊎ ((one_waits.locked ≢ 0) × (pthread_mutex_trylock 4096 2 one_waits ≡ (16, one_waits))))
mutex_lem_example =
    mutex_lem 4096 1 2 one_waits (1 ∷ []) (λ _. []) (omega arith) one_waits-IsWaiting none_queued
      (λ t. omega arith) (omega arith) two_not_in

relock_loses_example : Forgotten 2 (unlock 1 (lock_pass 1 (lock_pass 2 (lock_pass 1 held).1).1).1)
relock_loses_example =
    relock_loses 1 1 2 held (omega arith) refl refl (omega arith) (omega arith) (omega arith)
