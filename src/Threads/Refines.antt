-- ===== src/Threads/Refines.antt =====
-- rust/crates/house-libc/src/threads/threads.rs: the run queues of the scheduler as lists, under any
-- sequence of calls.
use house.Prelude.{
  ℕ, ◌≤◌, ◌<◌, ◌≡◌, refl, sym, subst, inl, inr, true, false, List, [], ◌∷◌, arith, leb, ◌==◌,
  lt→ltb, ==_ne, Bool-cases, ℤ, pos, negsuc,
}
use house.Threads.{
  max_threads, max_smp, Runs, put, enqueue_run_core, dequeue_run_core, house_threads_init,
}
use house.Threads.Queue.{
  has, last, head_of, tail_of, Queues, anywhere_below, Call, enqueue, dequeue, admit, leave, serve,
  anywhere_below-has,
}
use house.Threads.Links.{IsRun}
use house.Threads.Step.{IsQueues, change, queued_below-anywhere}
use house.Threads.Keep.{link_last-IsQueues, unlink_first-IsQueues}

-- A call as the code answers it; `enqueue_run_core` answers nothing.
abbrev pub perform : Call → Runs → ℕ × Runs
perform (enqueue c t) s = (0, enqueue_run_core c t s)
perform (dequeue c) s = dequeue_run_core c s

-- The thread of a call is null or one of THREADS.
abbrev pub IsCall : Call → Type 0
IsCall (enqueue _ t) = t ≤ max_threads
IsCall (dequeue _) = Unit {0}

pub enqueue_lem :
    (c : ℤ) (t : ℕ) (s : Runs) (qs : Queues)
    → IsQueues s qs
    → t ≤ max_threads
    → IsQueues (enqueue_run_core c t s) (admit c t qs)
unfolding enqueue_run_core admit
enqueue_lem (negsuc _) t s qs i le = i
enqueue_lem (pos c) t s qs i le = elim (Bool-cases (leb max_smp c)) [
  | inl far ↦ rw far i
  | inr near ↦ elim (Bool-cases (t == 0)) [
    | inl y ↦ rw (near, y) i
    | inr y ↦
        let seen = queued_below-anywhere s qs max_smp t i (omega arith) in
        elim (Bool-cases (anywhere_below max_smp t qs)) [
          | inl z ↦ rw (near, y, seen, z) i
          | inr z ↦
              rw (near, y, seen, z)
                (link_last-IsQueues s qs c t i (ground arith) (λ e. ground (arith, y, e)) le
                  (λ d. anywhere_below-has max_smp t qs d z))
        ]
  ]
]

same_queue :
    (s : Runs) (qs : Queues) (c : ℕ) → IsQueues s qs → c < max_smp → IsQueues s (put qs c (qs c))
same_queue s qs c i lt =
    change s s qs c (qs c) i lt (i.0 c lt) (λ d k _. i.0 d k)
      (λ u d k ne. i.1 u c d lt k (λ e. ne (sym e)))

dequeue_near :
    (c : ℕ) (s : Runs) (qs : Queues)
    → IsQueues s qs
    → c < max_smp
    → (xs : List ℕ) → qs c ≡ xs
    → ((dequeue_run_core (pos c) s).0 ≡ head_of xs)
      × IsQueues (dequeue_run_core (pos c) s).1 (put qs c (tail_of xs))
unfolding dequeue_run_core
dequeue_near c s qs i lt [] e =
    let far : leb max_smp c ≡ false = ground arith in
    let empty : s.head c ≡ 0 = subst (λ l. IsRun s.next (s.head c) l) e (i.0 c lt).0 in
    rw (far, empty) (refl, subst (λ l. IsQueues s (put qs c l)) e (same_queue s qs c i lt))
dequeue_near c s qs i lt (x ∷ xs) e =
    let far : leb max_smp c ≡ false = ground arith in
    let first = subst (λ l. IsRun s.next (s.head c) l) e (i.0 c lt).0 in
    rw (far, first.0, ==_ne x 0 first.1) (refl, unlink_first-IsQueues s qs c x xs i lt e)

leave_near :
    (c : ℕ) (qs : Queues)
    → leb max_smp c ≡ false
    → leave (pos c) qs ≡ (head_of (qs c), put qs c (tail_of (qs c)))
unfolding leave
leave_near c qs near = rw near refl

dequeue_off :
    (c : ℤ) (s : Runs) (qs : Queues)
    → ((k : ℕ) → c ≡ pos k → leb max_smp k ≡ true)
    → (dequeue_run_core c s ≡ (0, s)) × (leave c qs ≡ (0, qs))
unfolding dequeue_run_core leave
dequeue_off (negsuc _) s qs h = (refl, refl)
dequeue_off (pos c) s qs h = rw (h c refl) (refl, refl)

dequeue_lem :
    (c : ℤ) (s : Runs) (qs : Queues)
    → IsQueues s qs
    → ((dequeue_run_core c s).0 ≡ (leave c qs).0) × IsQueues (dequeue_run_core c s).1 (leave c qs).1
dequeue_lem (negsuc n) s qs i =
    let off = dequeue_off (negsuc n) s qs (λ k e. absurd (ground (arith, e))) in
    rw (off.0, off.1) (refl, i)
dequeue_lem (pos c) s qs i = elim (Bool-cases (leb max_smp c)) [
  | inl far ↦
      let off = dequeue_off (pos c) s qs (λ k e. ground (arith, far, e)) in
      rw (off.0, off.1) (refl, i)
  | inr near ↦ rw (leave_near c qs near) (dequeue_near c s qs i (ground arith) (qs c) refl)
]

perform_lem :
    (k : Call) (s : Runs) (qs : Queues)
    → IsCall k
    → IsQueues s qs
    → ((perform k s).0 ≡ (serve k qs).0) × IsQueues (perform k s).1 (serve k qs).1
perform_lem (enqueue c t) s qs h i = (refl, enqueue_lem c t s qs i h)
perform_lem (dequeue c) s qs h i = dequeue_lem c s qs i

-- the answers to a sequence of calls, and the queues at its end
abbrev pub perform_all : List Call → Runs → List ℕ × Runs
perform_all [] s = ([], s)
perform_all (k ∷ ks) s =
    let now = perform k s in let later = perform_all ks now.1 in (now.0 ∷ later.0, later.1)

abbrev pub serve_all : List Call → Queues → List ℕ × Queues
serve_all [] qs = ([], qs)
serve_all (k ∷ ks) qs =
    let now = serve k qs in let later = serve_all ks now.1 in (now.0 ∷ later.0, later.1)

abbrev pub AreCalls : List Call → Type 0
AreCalls [] = Unit {0}
AreCalls (k ∷ ks) = IsCall k × AreCalls ks

perform_all_lem :
    (ks : List Call) (s : Runs) (qs : Queues)
    → AreCalls ks
    → IsQueues s qs
    → ((perform_all ks s).0 ≡ (serve_all ks qs).0)
      × IsQueues (perform_all ks s).1 (serve_all ks qs).1
perform_all_lem [] s qs h i = (refl, i)
perform_all_lem (k ∷ ks) s qs h i =
    let now = perform_lem k s qs h.0 i in
    let later = perform_all_lem ks (perform k s).1 (serve k qs).1 h.1 now.1 in
    (rw (now.0, later.0) refl, later.1)

threads_init-IsQueues : (s : Runs) → IsQueues (house_threads_init s) (λ _. [])
unfolding house_threads_init has last
threads_init-IsQueues s = (
  (λ c lt. rw (lt→ltb c max_smp lt) (refl, refl, tt, tt)),
  λ u c d _ _ _ e. absurd (ground (arith, e)),
)

-- After `house_threads_init`, whatever the tables held, any sequence of `enqueue_run_core` and
-- `dequeue_run_core` for any core numbers and any threads of the table or null gives the answers of
-- one first-in-first-out list for each of the 32 cores, where a thread that is in some list is not
-- added again, and calls for other cores and for null do nothing. At the end the heads, the tails
-- and the `next` links describe these lists, and no thread is in them twice.
pub run_calls_refines :
    (s : Runs) (ks : List Call)
    → AreCalls ks
    → ((perform_all ks (house_threads_init s)).0 ≡ (serve_all ks (λ _. [])).0)
      × IsQueues (perform_all ks (house_threads_init s)).1 (serve_all ks (λ _. [])).1
run_calls_refines s ks h =
    perform_all_lem ks (house_threads_init s) (λ _. []) h (threads_init-IsQueues s)
