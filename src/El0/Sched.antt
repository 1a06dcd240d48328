-- ===== src/El0/Sched.antt =====
-- svc.rs: the quantum of the core, counted down by the timer interrupt.
pub mod Laws
use house.El0.{
  req_fault_kill, req_preempt, req_fault, Slot, save_words, el0_free, el0_n, El0, find_slot,
  find_last, slot, put_slot, is_negative, made_pipe, poke_write, poke_park, house_el0_park_pipe_fd,
  house_el0_park_pipe_readable, is_positive, drain_from, house_el0_park_pipe_drain, park_current,
}
use house.Prelude.{
  ℕ, zero, suc, ◌+◌, ◌-◌, ◌*◌, ◌/◌, ◌%◌, ◌^◌, ◌≤◌, ◌<◌, min, max, ◌≡◌, refl, sym, ap, subst, ◌∙◌,
  ◌≢◌, ◌⊎◌, inl, inr, ◌↔◌, Bool, true, false, not, ◌&&◌, ◌||◌, Option, none, some, List, [], ◌∷◌,
  ◌++◌, map, arith, ltb, leb, ◌==◌, if◌then◌else◌, ltb→lt, lt→ltb, leb→le, le→leb, ==_iff, ==_refl,
  ==_ne, Bool-cases, Option-cases, all_below, all_below_sound, is_some, ℤ, pos, negsuc, neg, eq_ℤ,
  eq_ℤ_iff, as_u64, length, get_elem?, get_or, set, take, drop, replicate, length-append,
  length-take, length-drop, length-set, get_or-set_self, get_or-set_ne,
}

unfoldable pub house_sched_set_runnable : ℕ → El0 → El0
house_sched_set_runnable n e = record e { sched_runnable = n }

unfoldable pub house_sched_set_quantum : ℕ → El0 → El0
house_sched_set_quantum n e = record e { sched_quantum = (if n == 0 then 1 else n) }

unfoldable pub sched_reset_quantum : El0 → El0
sched_reset_quantum e =
    if ltb e.core 32 then record e { sched_left = set e.sched_left e.core e.sched_quantum } else e

-- a session parked as PREEMPT with the interrupted frame
abbrev pub preempt : List ℕ → ℕ → ℕ → Slot → Slot
preempt gpr elr sp_el0 s = record s {
  save = gpr;
  elr = elr;
  sp_el0 = sp_el0;
  req = req_preempt;
  fault_va = 0;
  parked = true;
}

abbrev pub rearm_quantum : El0 → El0
rearm_quantum e = record e {
  sched_left = set e.sched_left e.core (if e.sched_quantum == 0 then 1 else e.sched_quantum);
}

-- One tick of the timer; `gpr` is the frame, if it is not null.
unfoldable pub house_sched_tick_preempt : Option (List ℕ) → ℕ → ℕ → Bool → El0 → Bool × El0
unfolding park_current
house_sched_tick_preempt none elr sp_el0 is_el0 e = (false, e)
house_sched_tick_preempt (some gpr) elr sp_el0 is_el0 e =
    let left = get_or e.sched_left e.core 0 in
    if leb 32 e.core || not is_el0
    then (false, e)
    else if ltb 1 left
    then (false, record e { sched_left = set e.sched_left e.core (left - 1) })
    else if e.sched_runnable == 0
    then (false, rearm_quantum e)
    else park_current (preempt gpr elr sp_el0) (rearm_quantum e)
