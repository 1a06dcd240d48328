-- ===== src/Threads/Mutex/Lost.antt =====
-- rust/crates/house-libc/src/threads/threads.rs: `house_sched_block` may return without a wakeup, when
-- the core has nothing else to run, and `pthread_mutex_lock` then takes another turn of its loop.
use house.Prelude.{ℕ, ◌/◌, ◌%◌, ◌^◌, ◌≡◌, refl, sym, ◌∙◌, ◌≢◌, leb, ◌==◌, if◌then◌else◌, ==_ne, pos}
use house.Threads.{thr_runnable, Runs, put, enqueue_run_core}
use house.Threads.Links.{put_self, put_ne}
use house.Threads.Mutex.{
  thr_blocked, Mutex, join_wait, lock_pass, house_sched_kick, wake_core, wake_first, unlock,
}
use house.Threads.Mutex.Target.{if_both}
use house.Threads.Mutex.Wake.{enqueue-state}

-- No thread waits any more, and `b` is blocked.
abbrev pub Forgotten : ℕ → Mutex → Type 0
Forgotten b m = (m.wait_head ≡ 0) × (m.wait_tail ≡ 0) × (m.runs.state b ≡ thr_blocked)

kick-Forgotten : (b t : ℕ) (m : Mutex) → Forgotten b m → Forgotten b (house_sched_kick t m)
unfolding house_sched_kick
kick-Forgotten b t m f =
    let P = Forgotten b in
    if_both P (leb m.smp t) m _ f
      (if_both P (leb 32 t) m _ f (if_both P (m.online_mask / 2 ^ t % 2 == 0) m _ f f))

unlock-Forgotten :
    (cpu a b : ℕ) (m : Mutex)
    → a ≢ 0
    → b ≢ a
    → m.wait_head ≡ a
    → m.wait_next a ≡ 0
    → m.runs.state b ≡ thr_blocked
    → Forgotten b (unlock cpu m)
unfolding unlock wake_first
unlock-Forgotten cpu a b m nz ne h l k =
    let t = wake_core a m in
    let runnable : Runs = record m.runs { state = put m.runs.state a thr_runnable } in
    let woken : Mutex = record m {
      locked = 0;
      owner = 0;
      wait_head = m.wait_next a;
      wait_tail = if m.wait_next a == 0 then 0 else m.wait_tail;
      wait_next = put m.wait_next a 0;
      runs = enqueue_run_core (pos t) a runnable;
    } in
    let done : Forgotten b woken = (
      l,
      rw l refl,
      enqueue-state t a b runnable ne ∙ put_ne m.runs.state a thr_runnable b ne ∙ k,
    ) in
    rw (h, ==_ne a 0 nz)
      (if_both (Forgotten b) (t == cpu) woken _ done (kick-Forgotten b t woken done))

three_turns :
    (a b : ℕ) (m : Mutex)
    → m.wait_head ≡ 0
    → m.wait_tail ≡ 0
    → a ≢ 0
    → b ≢ 0
    → b ≢ a
    → let m' = join_wait a (join_wait b (join_wait a m)) in
      (m'.wait_head ≡ a) × (m'.wait_next a ≡ 0) × (m'.runs.state b ≡ thr_blocked)
unfolding join_wait
three_turns a b m h t na nb ne =
    let first = join_wait a m in
    let second = join_wait b first in
    (
      rw (==_ne b 0 nb, ==_ne a 0 na, t) refl,
      rw (==_ne b 0 nb) (
          put_ne (put second.wait_next a 0) b a a (λ e. ne (sym e))
          ∙ put_self second.wait_next a 0),
      put_ne second.runs.state a thr_blocked b ne ∙ put_self first.runs.state b thr_blocked,
    )

join_wait-held : (a : ℕ) (m : Mutex) → m.locked ≢ 0 → (join_wait a m).locked ≢ 0
unfolding join_wait
join_wait-held a m l = l

lock_pass-join_wait : (a : ℕ) (m : Mutex) → m.locked ≢ 0 → a ≢ 0 → (lock_pass a m).1 ≡ join_wait a m
unfolding lock_pass
lock_pass-join_wait a m l nz = rw (==_ne m.locked 0 l, ==_ne a 0 nz) refl

-- While a mutex is held and none waits, a thread `a` takes a turn of `pthread_mutex_lock`, another
-- thread `b` does, and then `a`, whose `house_sched_block` came back, takes another. The next
-- `pthread_mutex_unlock`, on any core, leaves no thread waiting, but `b` is still blocked: it is
-- lost, since the second turn of `a` cleared the link to it.
pub relock_loses :
    (cpu a b : ℕ) (m : Mutex)
    → m.locked ≢ 0
    → m.wait_head ≡ 0
    → m.wait_tail ≡ 0
    → a ≢ 0
    → b ≢ 0
    → b ≢ a
    → Forgotten b (unlock cpu (lock_pass a (lock_pass b (lock_pass a m).1).1).1)
relock_loses cpu a b m l h t na nb ne =
    let first = join_wait a m in
    let second = join_wait b first in
    let held = join_wait-held a m l in
    let turns = three_turns a b m h t na nb ne in
    rw
      (
        lock_pass-join_wait a m l na,
        lock_pass-join_wait b first held nb,
        lock_pass-join_wait a second (join_wait-held b first held) na,
      )
      (unlock-Forgotten cpu a b (join_wait a second) na ne turns.0 turns.1 turns.2)
