-- ===== src/Tests/Dispatch.antt =====
-- The console write and a file call on the memory of a session.
use house.Svc.{Space, leaf, translate_va_pdir, translate_va, house_is_demand_va}
use house.Prelude.{
  ℕ, ◌≡◌, refl, inl, true, false, none, some, [], ◌∷◌, arith, ◌==◌, if◌then◌else◌, pos, neg,
}
use house.El0.{El0}
use house.Svc.Buffer.{is_usable, pages_usable, validate_user_buffer}
use house.Svc.Copy.{read_bytes}
use house.Svc.Dispatch.{set_x0, house_svc_dispatch}
use house.Svc.Dispatch.Console.{Prints, console_write_lem}
use house.Svc.Dispatch.Errors.{Agree, dispatch_file_lem}
use house.Svc.Gates.{house_fd_should_park}

-- one page at 0x1000000, in the frame 0x9000, that starts with "hi"
abbrev tables : ℕ → ℕ
tables a =
    if a == 0x1000
    then 0x2001
    else if a == 0x2000
    then 0x3001
    else if a == 0x3040
    then 0x4001
    else if a == 0x4000
    then 0x9001
    else if a == 0x9000
    then 0x6968
    else 0

abbrev space : Space
space = record { current = 0x1000; mem = tables }

abbrev nobody : El0
nobody = record {
  table = [];
  current = 0x1000;
  user_exit_code = pos 0;
  user_exited = false;
  core = 0;
  sched_left = [];
  sched_quantum = 10;
  sched_runnable = 0;
  park_pipe_r = neg 1;
  park_pipe_w = neg 1;
  fds = record {
    fdt = [];
    errno = 0;
    tick_interval_ns = 0;
    isr_active = true;
    isr_pending = [];
    uart = [];
  };
}

buffer_ok : validate_user_buffer space 0x1000000 2 ≡ pos 0
unfolding validate_user_buffer pages_usable is_usable translate_va translate_va_pdir leaf
    house_is_demand_va
buffer_ok = refl

console_write_lem_example :
    Prints
      (read_bytes tables 0x1000 0x1000000 2)
      2
      (some (1 ∷ 2 ∷ []))
      nobody
      (house_svc_dispatch space 0x01 1 0x1000000 2 (some (1 ∷ 2 ∷ [])) nobody)
console_write_lem_example =
    console_write_lem space 0x1000000 2 (some (1 ∷ 2 ∷ [])) nobody (λ e. omega (arith, e))
      (omega arith) buffer_ok

dispatch_file_lem_example :
    let a = house_svc_dispatch space 5 3 0x1000000 70000 none nobody in
    Agree (house_fd_should_park space 5 3 0x1000000 70000) a.result
    × (a.gpr ≡ set_x0 a.result none)
    × (a.uart ≡ [])
    × (a.sessions ≡ nobody)
dispatch_file_lem_example =
    dispatch_file_lem space 5 3 0x1000000 70000 none nobody (inl (omega arith, omega arith))
