-- ===== src/El0/Park.antt =====
-- svc.rs: a session parks with its trap frame, the kernel takes its request, and resumes it.
pub mod Laws
pub mod Resume
use house.Prelude.{
  ℕ, zero, suc, ◌+◌, ◌-◌, ◌*◌, ◌/◌, ◌%◌, ◌^◌, ◌≤◌, ◌<◌, min, max, ◌≡◌, refl, sym, ap, subst, ◌∙◌,
  ◌≢◌, ◌⊎◌, inl, inr, ◌↔◌, Bool, true, false, not, ◌&&◌, ◌||◌, Option, none, some, List, [], ◌∷◌,
  ◌++◌, map, arith, ltb, leb, ◌==◌, if◌then◌else◌, ltb→lt, lt→ltb, leb→le, le→leb, ==_iff, ==_refl,
  ==_ne, Bool-cases, Option-cases, all_below, all_below_sound, is_some, ℤ, pos, negsuc, neg, eq_ℤ,
  eq_ℤ_iff, as_u64, length, get_elem?, get_or, set, take, drop, replicate, length-append,
  length-take, length-drop, length-set, get_or-set_self, get_or-set_ne,
}
use house.El0.{
  req_fault_kill, req_preempt, req_fault, Slot, save_words, zero_save, el0_free, el0_n, El0,
  find_slot, find_last, slot, put_slot, is_negative, made_pipe, poke_write, poke_park,
  house_el0_park_pipe_fd, house_el0_park_pipe_readable, is_positive, drain_from,
  house_el0_park_pipe_drain, park_current,
}
use house.El0.Sched.{
  house_sched_set_runnable, house_sched_set_quantum, sched_reset_quantum, preempt, rearm_quantum,
  house_sched_tick_preempt,
}

abbrev pub with_request : List ℕ → ℕ → ℕ → ℕ → Slot → Slot
with_request gpr elr sp_el0 imm s = record s {
  save = gpr;
  elr = elr;
  sp_el0 = sp_el0;
  req = imm;
  parked = true;
}

abbrev pub with_fault : ℕ → List ℕ → ℕ → ℕ → ℕ → Slot → Slot
with_fault req gpr elr sp_el0 far s = record s {
  save = gpr;
  elr = elr;
  sp_el0 = sp_el0;
  req = req;
  fault_va = far - far % 4096;
  parked = true;
}

-- `gpr` is the trap frame of 112 words, if it is not null.
unfoldable pub house_el0_park : ℕ → ℕ → ℕ → Option (List ℕ) → El0 → Bool × El0
unfolding park_current sched_reset_quantum
house_el0_park elr sp_el0 imm none e = (false, e)
house_el0_park elr sp_el0 imm (some gpr) e =
    park_current (with_request gpr elr sp_el0 imm) (sched_reset_quantum e)

unfoldable pub house_el0_park_fault : ℕ → ℕ → Option (List ℕ) → ℕ → El0 → Bool × El0
unfolding park_current sched_reset_quantum
house_el0_park_fault elr sp_el0 none far e = (false, e)
house_el0_park_fault elr sp_el0 (some gpr) far e =
    park_current (with_fault req_fault gpr elr sp_el0 far) (sched_reset_quantum e)

unfoldable pub house_el0_park_kill : ℕ → ℕ → Option (List ℕ) → ℕ → El0 → Bool × El0
unfolding park_current sched_reset_quantum
house_el0_park_kill elr sp_el0 none far e = (false, e)
house_el0_park_kill elr sp_el0 (some gpr) far e =
    park_current (with_fault req_fault_kill gpr elr sp_el0 far) (sched_reset_quantum e)

unfoldable pub house_el0_fault_addr : ℕ → El0 → ℕ
unfolding find_slot
house_el0_fault_addr pdir e = if pdir == 0 then 0 else elim (find_slot pdir e.table 0) [
  | some i ↦
      let s = slot e i in
      if s.parked && ((s.req == req_fault) || (s.req == req_fault_kill)) then s.fault_va else 0
  | none ↦ 0
]

unfoldable pub house_el0_parked : ℕ → El0 → Bool
unfolding find_slot
house_el0_parked pdir e =
    if pdir == 0
    then false
    else elim (find_slot pdir e.table 0) [ some i ↦ (slot e i).parked | none ↦ false ]

-- `there` tells whether both result pointers are not null. The second result is the request and
-- x0..x3.
unfoldable pub house_el0_take_request : ℕ → Bool → El0 → ℤ × Option (ℕ × List ℕ)
unfolding find_slot
house_el0_take_request pdir there e =
    if (pdir == 0) || not there then (neg 14, none) else elim (find_slot pdir e.table 0) [
      | some i ↦
          let s = slot e i in
          if s.parked then (pos 1, some (s.req, take 4 s.save)) else (pos 0, none)
      | none ↦ (pos 0, none)
    ]

-- the child's slot from the parent's
abbrev pub forked : Slot → Slot → Slot
forked p c = record c {
  save = set p.save 0 0;
  elr = p.elr;
  sp_el0 = p.sp_el0;
  req = 0;
  parked = true;
  exit_code = pos 0;
  exited = false;
}

unfoldable pub house_el0_clone_slot : ℕ → ℕ → El0 → ℤ × El0
unfolding find_last poke_park
house_el0_clone_slot parent child e =
    if (parent == 0) || (child == 0) then (neg 22, e) else elim (find_last parent e.table 0) [
      | none ↦ (neg 22, e)
      | some p ↦ elim (find_last child e.table 0) [
        | none ↦ (neg 22, e)
        | some c ↦
            if (slot e p).parked
            then (pos 0, poke_park (put_slot e c (forked (slot e p) (slot e c))))
            else (neg 22, e)
      ]
    ]

abbrev pub entered : ℕ → ℕ → Slot → Slot
entered entry sp s = record s { save = zero_save; elr = entry; sp_el0 = sp; req = 0 }

unfoldable pub house_el0_set_entry : ℕ → ℕ → ℕ → El0 → ℤ × El0
unfolding find_slot
house_el0_set_entry pdir entry sp e =
    if pdir == 0 then (neg 22, e) else elim (find_slot pdir e.table 0) [
      | some i ↦
          if (slot e i).parked
          then (pos 0, put_slot e i (entered entry sp (slot e i)))
          else (neg 22, e)
      | none ↦ (neg 22, e)
    ]

-- the arguments of `house_resume_asm`, which enters EL0
pub record Entry : Type 0 where
  pub save : List ℕ
  pub elr : ℕ
  pub sp_el0 : ℕ
  pub pdir : ℕ
  pub asid : ℕ

abbrev pub unparked : ℕ → Slot → Slot
unparked res s = record s { save = set s.save 0 res; parked = false }

abbrev pub entry_of : ℕ → ℕ → Slot → Entry
entry_of pdir asid s = record {
  save = s.save;
  elr = s.elr;
  sp_el0 = s.sp_el0;
  pdir = pdir;
  asid = asid;
}

-- The second result is the frame that enters EL0, if one does. `house_set_recorded_pdir` makes the
-- directory the current one.
unfoldable pub house_resume_el0 : ℕ → ℕ → ℕ → El0 → ℤ × Option Entry × El0
unfolding find_slot sched_reset_quantum
house_resume_el0 pdir asid res e =
    if pdir == 0 then (neg 22, none, e) else elim (find_slot pdir e.table 0) [
      | some i ↦
          if (slot e i).parked
          then (let s = unparked res (slot e i) in
              (
                pos 0,
                some (entry_of pdir asid s),
                record (sched_reset_quantum (put_slot e i s)) { current = pdir },
              ))
          else (pos 0, none, e)
      | none ↦ (neg 22, none, e)
    ]
