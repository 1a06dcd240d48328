-- ===== src/Threads/Mutex/Wake.antt =====
-- rust/crates/house-libc/src/threads/threads.rs: the thread that `pthread_mutex_unlock` wakes.
use house.Prelude.{
  ℕ, zero, suc, ◌^◌, ◌≤◌, ◌<◌, ◌≡◌, refl, subst, ◌∙◌, ◌≢◌, ◌⊎◌, inl, inr, true, false, List, [],
  ◌∷◌, ◌++◌, arith, leb, ◌==◌, if◌then◌else◌, ==_ne, Bool-cases, pos,
}
use house.Threads.{
  max_threads, max_smp, thr_runnable, Runs, put, queued_anywhere, link_last, enqueue_run_core,
}
use house.Threads.Queue.{has, Queues, anywhere_below, admit, anywhere_below-has}
use house.Threads.Links.{put_self, put_ne}
use house.Threads.Step.{IsQueue, IsQueues, unlink_self}
use house.Threads.Refines.{enqueue_lem}
use house.Threads.Mutex.Target.{Target, Kicked, if_both, wake_core_lem, kick_keeps, kick-Kicked}
use house.Threads.Mutex.{Mutex, wake_core, wake_first}

-- The threads `ws` wait, in this order.
abbrev pub IsWaiting : Mutex → List ℕ → Type 0
IsWaiting m ws = IsQueue m.wait_next m.wait_head m.wait_tail ws

-- The thread is where it was, in a queue of some core, or behind the others of its core.
abbrev pub Queued : ℕ → ℕ → Queues → Runs → Type 0
Queued c w qs s =
    ((d : ℕ) × (d < max_smp) × (has w (qs d) ≡ true)) × IsQueues s qs
    ⊎ ((d : ℕ) → d < max_smp → has w (qs d) ≡ false) × IsQueues s (put qs c (qs c ++ w ∷ []))

-- The mutex is free, `rest` still waits, and `w` is runnable and queued; no other state changes.
abbrev pub Settled : ℕ → ℕ → List ℕ → Queues → Mutex → Mutex → Type 0
Settled c w rest qs m m' =
    (m'.locked ≡ 0)
    × (m'.owner ≡ 0)
    × IsWaiting m' rest
    × (m'.runs.state w ≡ thr_runnable)
    × ((b : ℕ) → b ≢ w → m'.runs.state b ≡ m.runs.state b)
    × Queued c w qs m'.runs

enqueue-runnable :
    (c w : ℕ) (s : Runs)
    → s.state w ≡ thr_runnable
    → (enqueue_run_core (pos c) w s).state w ≡ thr_runnable
unfolding enqueue_run_core link_last
enqueue-runnable c w s h =
    let P : Runs → Type 0 = λ r. r.state w ≡ thr_runnable in
    if_both P (leb max_smp c) s _ h (
      if_both P (w == 0) s _ h
        (if_both P (queued_anywhere w s) s _ h (put_self s.state w thr_runnable)))

pub enqueue-state :
    (c t b : ℕ) (s : Runs) → b ≢ t → (enqueue_run_core (pos c) t s).state b ≡ s.state b
unfolding enqueue_run_core link_last
enqueue-state c t b s ne =
    let P : Runs → Type 0 = λ r. r.state b ≡ s.state b in
    if_both P (leb max_smp c) s _ refl (
      if_both P (t == 0) s _ refl
        (if_both P (queued_anywhere t s) s _ refl (put_ne s.state t thr_runnable b ne)))

anywhere_below-core :
    (n t : ℕ) (qs : Queues)
    → anywhere_below n t qs ≡ true
    → (d : ℕ) × (d < n) × (has t (qs d) ≡ true)
unfolding anywhere_below
anywhere_below-core zero t qs h = absurd (ground (arith, h))
anywhere_below-core (suc n) t qs h = elim (Bool-cases (anywhere_below n t qs)) [
  | inl y ↦ let (d, lt, k) = anywhere_below-core n t qs y in (d, omega arith, k)
  | inr y ↦ (n, omega arith, ground (arith, h, y))
]

enqueue-Queued :
    (c w : ℕ) (s : Runs) (qs : Queues)
    → IsQueues s qs
    → c < max_smp
    → w ≢ 0
    → w ≤ max_threads
    → Queued c w qs (enqueue_run_core (pos c) w s)
unfolding admit
enqueue-Queued c w s qs i lt nz le =
    let near : leb max_smp c ≡ false = ground arith in
    let q = enqueue_lem (pos c) w s qs i le in
    elim (Bool-cases (anywhere_below max_smp w qs)) [
      | inl y ↦ inl (
        anywhere_below-core max_smp w qs y,
        subst (λ r. IsQueues (enqueue_run_core (pos c) w s) r) (rw (near, ==_ne w 0 nz, y) refl) q,
      )
      | inr y ↦ inr (
        (λ d. anywhere_below-has max_smp w qs d y),
        subst (λ r. IsQueues (enqueue_run_core (pos c) w s) r) (rw (near, ==_ne w 0 nz, y) refl) q,
      )
    ]

-- A woken thread goes to its core, and the mutex is free.
abbrev pub Awake : ℕ → ℕ → List ℕ → Queues → Mutex → Mutex → Type 0
Awake cpu w rest qs m m' =
    (c : ℕ) × Target (m.affinity w) m.smp c
    × Settled c w rest qs m m'
    × Kicked cpu c m.smp m.online_mask m.sgis m'.sgis

pub wake_first-Awake :
    (cpu w : ℕ) (m : Mutex) (rest : List ℕ) (qs : Queues)
    → m.locked ≡ 0
    → m.owner ≡ 0
    → IsWaiting m (w ∷ rest)
    → IsQueues m.runs qs
    → m.affinity w < 2 ^ 32
    → Awake cpu w rest qs m (wake_first cpu w m)
unfolding wake_first
wake_first-Awake cpu w m rest qs a b i q lt =
    let c = wake_core w m in
    let (near, target) = wake_core_lem w m lt in
    let runnable : Runs = record m.runs { state = put m.runs.state w thr_runnable } in
    let woken : Mutex = record m {
      wait_head = m.wait_next w;
      wait_tail = if m.wait_next w == 0 then 0 else m.wait_tail;
      wait_next = put m.wait_next w 0;
      runs = enqueue_run_core (pos c) w runnable;
    } in
    let done : Settled c w rest qs m woken = (
      a,
      b,
      unlink_self m.wait_next m.wait_head m.wait_tail w rest i,
      enqueue-runnable c w runnable (put_self m.runs.state w thr_runnable),
      (λ x ne. enqueue-state c w x runnable ne ∙ put_ne m.runs.state w thr_runnable x ne),
      enqueue-Queued c w runnable qs q near i.0.1 i.3.1,
    ) in
    (
      c,
      target,
      if_both (Settled c w rest qs m) (c == cpu) woken _ done
          (kick_keeps (Settled c w rest qs m) c woken (λ l. done)),
      kick-Kicked cpu c woken near,
    )
