-- ===== src/Tests/Runs.antt =====
-- The run queues: threads 1 and 2 on core 0, thread 3 on core 1.
use house.Prelude.{◌≡◌, refl, List, [], ◌∷◌, arith, pos, negsuc}
use house.Threads.{Runs, house_threads_init}
use house.Threads.Queue.{has, anywhere_below, Call, enqueue, dequeue, admit, leave}
use house.Threads.Step.{IsQueues}
use house.Threads.Refines.{perform_all, serve_all, run_calls_refines}

-- tables with old values in them
abbrev stale : Runs
stale = record { head = λ _. 5; tail = λ _. 6; next = λ _. 5; state = λ _. 3 }

abbrev some_calls : List Call
some_calls =
    enqueue (pos 0) 1
    ∷ enqueue (pos 0) 2
    ∷ enqueue (pos 1) 3
    ∷ enqueue (pos 1) 2
    ∷ enqueue (pos 40) 4
    ∷ dequeue (pos 0)
    ∷ enqueue (pos 1) 1
    ∷ dequeue (pos 1)
    ∷ dequeue (pos 1)
    ∷ dequeue (pos 1)
    ∷ dequeue (negsuc 0)
    ∷ []

some_answers : (serve_all some_calls (λ _. [])).0 ≡ 0 ∷ 0 ∷ 0 ∷ 0 ∷ 0 ∷ 1 ∷ 0 ∷ 3 ∷ 1 ∷ 0 ∷ 0 ∷ []
unfolding admit leave anywhere_below has
some_answers = refl

run_calls_refines_example :
    ((perform_all some_calls (house_threads_init stale)).0 ≡ (serve_all some_calls (λ _. [])).0)
    × IsQueues
        (perform_all some_calls (house_threads_init stale)).1
        (serve_all some_calls (λ _. [])).1
run_calls_refines_example = run_calls_refines stale some_calls (
  omega arith,
  (
    omega arith,
    (omega arith, (omega arith, (omega arith, (tt, (omega arith, (tt, (tt, (tt, (tt, tt))))))))),
  ),
)
