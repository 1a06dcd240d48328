-- ===== src/El0/Sched/Laws.antt =====
-- A session runs for its quantum of timer ticks, then parks if others are waiting.
use house.El0.{Slot, El0, park_current}
use house.Prelude.{
  ℕ, zero, suc, ◌<◌, ◌≡◌, refl, ◌∙◌, ◌≢◌, ◌⊎◌, inl, inr, Bool, true, false, some, List, arith, ◌==◌,
  if◌then◌else◌, ==_iff, Bool-cases, length, get_or, set, length-set, get_or-set_self,
}
use house.El0.Sched.{preempt, rearm_quantum, house_sched_tick_preempt}
use house.El0.Park.Laws.{Stopped, Traps, park_current_lem}

-- ticks of the timer with the session's frame as it is then, up to the one that parks it
pub tick_n : ℕ → List ℕ → ℕ → ℕ → El0 → Bool × El0
unfolding house_sched_tick_preempt
tick_n zero gpr elr sp_el0 e = (false, e)
tick_n (suc n) gpr elr sp_el0 e =
    let (b, e') = house_sched_tick_preempt (some gpr) elr sp_el0 true e in
    let rest = tick_n n gpr elr sp_el0 e' in if b then (true, e') else rest

-- the core has a countdown of `n`
pub record Counts (n : ℕ) (e : El0) : Type 0 where
  pub core_in : e.core < 32
  pub cores : length e.sched_left ≡ 32
  pub left : get_or e.sched_left e.core 0 ≡ n

abbrev with_left : El0 → ℕ → El0
with_left e n = record e { sched_left = set e.sched_left e.core n }

with_left-Counts : (n m : ℕ) (e : El0) → Counts m e → Counts n (with_left e n)
with_left-Counts n m e c = record {
  core_in = c.core_in;
  cores = length-set e.sched_left e.core n ∙ c.cores;
  left = get_or-set_self e.sched_left e.core n 0 (omega (arith, c.core_in, c.cores));
}

tick_quiet :
    (n : ℕ) (gpr : List ℕ) (elr sp_el0 : ℕ) (e : El0)
    → Counts (suc (suc n)) e
    → house_sched_tick_preempt (some gpr) elr sp_el0 true e ≡ (false, with_left e (suc n))
unfolding house_sched_tick_preempt
tick_quiet n gpr elr sp_el0 e c = rw (c.left, house_sched_tick_preempt) (ground (arith, c.core_in))

tick_last :
    (gpr : List ℕ) (elr sp_el0 : ℕ) (e : El0)
    → Counts 1 e
    → house_sched_tick_preempt (some gpr) elr sp_el0 true e ≡ (
        if e.sched_runnable == 0
        then (false, rearm_quantum e)
        else park_current (preempt gpr elr sp_el0) (rearm_quantum e))
unfolding house_sched_tick_preempt
tick_last gpr elr sp_el0 e c = rw (c.left, house_sched_tick_preempt) (ground (arith, c.core_in))

-- the end of a quantum; 0x1E is the request of a preempted session
abbrev pub Expired : ℕ → Slot → List ℕ → ℕ → ℕ → El0 → Bool × El0 → Type 0
Expired pdir s gpr elr sp_el0 e r =
    ((e.sched_runnable ≡ 0) × (r.0 ≡ false) × (r.1.table ≡ e.table))
    ⊎ ((e.sched_runnable ≢ 0)
        × Stopped pdir
            (record s {
              save = gpr;
              elr = elr;
              sp_el0 = sp_el0;
              req = 0x1E;
              fault_va = 0;
              parked = true;
            })
            e r)

tick_n-step :
    (n m : ℕ) (gpr : List ℕ) (elr sp_el0 : ℕ) (e : El0)
    → Counts (suc (suc n)) e
    → tick_n (suc m) gpr elr sp_el0 e ≡ tick_n m gpr elr sp_el0 (with_left e (suc n))
unfolding tick_n
tick_n-step n m gpr elr sp_el0 e c = rw (tick_quiet n gpr elr sp_el0 e c, tick_n) refl

tick_n-one :
    (gpr : List ℕ) (elr sp_el0 : ℕ) (e : El0)
    → tick_n 1 gpr elr sp_el0 e ≡ house_sched_tick_preempt (some gpr) elr sp_el0 true e
unfolding tick_n
tick_n-one gpr elr sp_el0 e = go (house_sched_tick_preempt (some gpr) elr sp_el0 true e)
  where
    go : (r : Bool × El0) → (if r.0 then (true, r.1) else (false, r.1)) ≡ r
    go (true, e') = refl
    go (false, e') = refl

tick_n-none : (gpr : List ℕ) (elr sp_el0 : ℕ) (e : El0) → (tick_n 0 gpr elr sp_el0 e).0 ≡ false
unfolding tick_n
tick_n-none gpr elr sp_el0 e = refl

last_lem :
    (gpr : List ℕ) (elr sp_el0 pdir : ℕ) (s : Slot) (e : El0)
    → Counts 1 e
    → Traps pdir s e
    → Expired pdir s gpr elr sp_el0 e (
        if e.sched_runnable == 0
        then (false, rearm_quantum e)
        else park_current (preempt gpr elr sp_el0) (rearm_quantum e))
last_lem gpr elr sp_el0 pdir s e c t = elim (Bool-cases (e.sched_runnable == 0)) [
  | inl y ↦ rw y (inl ((==_iff e.sched_runnable 0).0 y, refl, refl))
  | inr ne ↦
      let p =
        park_current_lem pdir (preempt gpr elr sp_el0) e (rearm_quantum e) s (λ x. refl) t refl
          refl in
      rw ne (inr (ground (arith, ne), p))
]

-- With a countdown of n + 1 on the core, n ticks do not park the session that runs in EL0. The next
-- tick parks it if the number of runnable sessions is not 0: its slot then has the frame, the
-- interrupted instruction as its return address, the stack pointer, the request 0x1E and no fault
-- address, and is as before in the rest, and no other session changes. If that number is 0, the tick
-- does not park it and leaves the table of sessions as it was.
pub tick_n-preempt :
    (n : ℕ) (gpr : List ℕ) (elr sp_el0 pdir : ℕ) (s : Slot) (e : El0)
    → Counts (suc n) e
    → Traps pdir s e
    → ((tick_n n gpr elr sp_el0 e).0 ≡ false)
      × Expired pdir s gpr elr sp_el0 e (tick_n (suc n) gpr elr sp_el0 e)
tick_n-preempt zero gpr elr sp_el0 pdir s e c t = (
  tick_n-none gpr elr sp_el0 e,
  rw (tick_n-one gpr elr sp_el0 e, tick_last gpr elr sp_el0 e c)
      (last_lem gpr elr sp_el0 pdir s e c t),
)
tick_n-preempt (suc n) gpr elr sp_el0 pdir s e c t =
    let e1 = with_left e (suc n) in
    let t1 : Traps pdir s e1 = record {
      present = t.present;
      current = t.current;
      valid = record { full = t.valid.full; unique = t.valid.unique };
      here = t.here;
    } in
    let (a, b) = tick_n-preempt n gpr elr sp_el0 pdir s e1 (with_left-Counts (suc n) _ e c) t1 in
    rw (tick_n-step n n gpr elr sp_el0 e c, tick_n-step n (suc n) gpr elr sp_el0 e c) (a, b)
