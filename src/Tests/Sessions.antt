-- ===== src/Tests/Sessions.antt =====
-- Sessions: a table with the sessions of two directories, the first of them running on core 0 and the second
-- one parked.
use house.Prelude.{
  ℕ, zero, suc, ◌≡◌, refl, inl, inr, true, false, none, some, List, [], ◌∷◌, arith, pos, neg, set,
  replicate,
}
use house.Fd.{Sys}
use house.El0.{req_fault, Slot, zero_save, el0_free, El0}
use house.El0.Table.{look, Unique}
use house.El0.Session.Laws.{session, Registered, register_lem}
use house.El0.Session.Laws.{session, Registered, register_lem, IsValid}
use house.El0.Change.{Changed}
use house.El0.Park.{
  house_el0_park, house_el0_park_fault, house_el0_park_kill, house_el0_fault_addr,
  house_el0_take_request, forked, house_el0_clone_slot, house_resume_el0,
}
use house.El0.Park.Laws.{Stopped, Traps, park_lem, take_request-park}
use house.El0.Park.Resume.{resume-park, resume-clone_slot}
use house.El0.Sched.Laws.{tick_n, Counts, Expired, tick_n-preempt}
use house.El0.Session.{house_el0_register}

abbrev running : Slot
running = record el0_free { pdir = 0x5000 }

abbrev waiting : Slot
waiting = record el0_free {
  pdir = 0x6000;
  parked = true;
  elr = 0x1000100;
  sp_el0 = 0x2000000;
  req = 8;
}

abbrev fds : Sys
fds = record {
  fdt = [];
  errno = 0;
  tick_interval_ns = 0;
  isr_active = true;
  isr_pending = [];
  uart = [];
}

abbrev two_sessions : El0
two_sessions = record {
  table = running ∷ waiting ∷ replicate 62 el0_free;
  current = 0x5000;
  user_exit_code = pos 0;
  user_exited = false;
  core = 0;
  sched_left = replicate 32 3;
  sched_quantum = 10;
  sched_runnable = 1;
  park_pipe_r = neg 1;
  park_pipe_w = neg 1;
  fds = fds;
}

-- the unused slots
free-Unique : (n : ℕ) → Unique (replicate n el0_free)
free-Unique zero = tt
free-Unique (suc n) = (inl refl, free-Unique n)

valid : IsValid two_sessions
unfolding look
valid = record { full = refl; unique = (inr refl, (inr refl, free-Unique 62)) }

first_session : session two_sessions 0x5000 ≡ some running
unfolding look
first_session = refl

second_session : session two_sessions 0x6000 ≡ some waiting
unfolding look
second_session = refl

traps : Traps 0x5000 running two_sessions
traps = record {
  present = λ e. omega (arith, e);
  current = refl;
  valid = valid;
  here = first_session;
}

counts : Counts 3 two_sessions
counts = record { core_in = omega arith; cores = refl; left = refl }

abbrev frame : List ℕ
frame = 11 ∷ 12 ∷ 13 ∷ 14 ∷ 15 ∷ []

register_lem_example : Registered 0x7000 two_sessions (house_el0_register 0x7000 two_sessions)
register_lem_example = register_lem 0x7000 two_sessions (λ e. omega (arith, e)) valid

park_lem_example :
    Stopped 0x5000
      (record running { save = frame; elr = 0x1000040; sp_el0 = 0x1800000; req = 4; parked = true })
      two_sessions
      (house_el0_park 0x1000040 0x1800000 4 (some frame) two_sessions)
    × Stopped 0x5000
        (record running {
          save = frame;
          elr = 0x1000040;
          sp_el0 = 0x1800000;
          req = 0x1F;
          fault_va = 0x1234000;
          parked = true;
        })
        two_sessions
        (house_el0_park_fault 0x1000040 0x1800000 (some frame) 0x1234567 two_sessions)
    × Stopped 0x5000
        (record running {
          save = frame;
          elr = 0x1000040;
          sp_el0 = 0x1800000;
          req = 0x1D;
          fault_va = 0x1234000;
          parked = true;
        })
        two_sessions
        (house_el0_park_kill 0x1000040 0x1800000 (some frame) 0x1234567 two_sessions)
park_lem_example = park_lem 0x1000040 0x1800000 4 0x1234567 frame 0x5000 two_sessions running traps

take_request-park_example :
    (house_el0_take_request 0x5000 true
        (house_el0_park 0x1000040 0x1800000 4 (some frame) two_sessions).1
      ≡ (pos 1, some (4, 11 ∷ 12 ∷ 13 ∷ 14 ∷ [])))
    × (house_el0_take_request 0x5000 true
          (house_el0_park_fault 0x1000040 0x1800000 (some frame) 0x1234567 two_sessions).1
        ≡ (pos 1, some (req_fault, 11 ∷ 12 ∷ 13 ∷ 14 ∷ [])))
    × (house_el0_fault_addr 0x5000
          (house_el0_park_fault 0x1000040 0x1800000 (some frame) 0x1234567 two_sessions).1
        ≡ 0x1234000)
    × (house_el0_fault_addr 0x5000
          (house_el0_park_kill 0x1000040 0x1800000 (some frame) 0x1234567 two_sessions).1
        ≡ 0x1234000)
take_request-park_example =
    take_request-park 0x1000040 0x1800000 4 0x1234567 frame 0x5000 two_sessions running traps

resume-park_example :
    let (r, f, e') =
      house_resume_el0 0x5000 1 42
        (house_el0_park 0x1000040 0x1800000 4 (some frame) two_sessions).1 in
    (r ≡ pos 0)
    × (f
        ≡ some (record {
          save = 42 ∷ 12 ∷ 13 ∷ 14 ∷ 15 ∷ [];
          elr = 0x1000040;
          sp_el0 = 0x1800000;
          pdir = 0x5000;
          asid = 1;
        }))
    × (e'.current ≡ 0x5000)
    × (house_resume_el0 0x5000 1 42 e' ≡ (pos 0, none, e'))
resume-park_example = resume-park 0x1000040 0x1800000 4 1 42 frame 0x5000 two_sessions running traps

resume-clone_slot_example :
    let (q, e1) = house_el0_clone_slot 0x6000 0x5000 two_sessions in
    let (r, f, e') = house_resume_el0 0x5000 1 0 e1 in
    (q ≡ pos 0)
    × Changed 0x5000 (forked waiting running) two_sessions e1
    × (r ≡ pos 0)
    × (f
        ≡ some (record {
          save = set (set zero_save 0 0) 0 0;
          elr = 0x1000100;
          sp_el0 = 0x2000000;
          pdir = 0x5000;
          asid = 1;
        }))
resume-clone_slot_example =
    resume-clone_slot 0x6000 0x5000 1 0 waiting running two_sessions (λ e. omega (arith, e))
      (λ e. omega (arith, e)) valid second_session first_session refl

tick_n-preempt_example :
    ((tick_n 2 frame 0x1000040 0x1800000 two_sessions).0 ≡ false)
    × Expired 0x5000 running frame 0x1000040 0x1800000 two_sessions
        (tick_n 3 frame 0x1000040 0x1800000 two_sessions)
tick_n-preempt_example =
    tick_n-preempt 2 frame 0x1000040 0x1800000 0x5000 running two_sessions counts traps
